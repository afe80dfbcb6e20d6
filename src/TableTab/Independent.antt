-- ===== src/TableTab/Independent.antt =====
-- The entries of the structure store do not depend on each other.
use vaultsql.Prelude.{Bool, List, [], ◌∷◌, Option, none, some, Text, same, if◌then◌else◌}
use vaultsql.Catalog.Replies.{dotted}
use vaultsql.TableTab.Structure.{
  loading, success, error, TableStructureEntry, structure_of, is_underway, StructureCall, begins,
  sets, fails, invalidates, StructureAction,
}

-- One table on its own.
abbrev pub entry_step : StructureCall → Option TableStructureEntry → Option TableStructureEntry
entry_step begins e =
    if is_underway e
    then e
    else some (record { structure = structure_of e; status = loading; message = none })
entry_step (sets structure) e =
    some (record { structure = structure; status = success; message = none })
entry_step (fails t) e =
    some (record { structure = structure_of e; status = error; message = some t })
entry_step invalidates e = none

abbrev pub entry_run :
    List StructureAction → Option TableStructureEntry → Option TableStructureEntry
entry_run [] e = e
entry_run (a ∷ actions) e = entry_run actions (entry_step a.call e)

abbrev pub is_of : Text → StructureAction → Bool
is_of key a = same (dotted a.schema a.table) key
