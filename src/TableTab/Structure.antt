-- ===== src/TableTab/Structure.antt =====
-- frontend/src/workbench/tabs/TableTab/state/useTableStructureStore.ts: one entry for each table, by
-- the schema and the table with a dot between.
use vaultsql.Prelude.{
  Bool, true, false, List, [], ◌∷◌, Option, none, some, Text, same, lookup, insert, erase_if,
  if◌then◌else◌,
}
use vaultsql.Database.Columns.{TableStructure}
use vaultsql.Catalog.Replies.{dotted}

pub data StructureStatus : Type 0 where
  idle loading success error : StructureStatus

pub record TableStructureEntry : Type 0 where
  pub structure : TableStructure
  pub status : StructureStatus
  pub message : Option Text

abbrev pub Tables : Type 0
Tables = List (Text × TableStructureEntry)

abbrev pub empty_structure : TableStructure
empty_structure = record { columns = []; indexes = []; foreign_keys = [] }

abbrev pub structure_of : Option TableStructureEntry → TableStructure
structure_of none = empty_structure
structure_of (some e) = e.structure

unfoldable pub get_entry : Text → Text → Tables → Option TableStructureEntry
get_entry schema table tables = lookup (dotted schema table) tables

abbrev pub is_underway : Option TableStructureEntry → Bool
is_underway none = false
is_underway (some e) = elim e.status [
  | idle ↦ false
  | loading ↦ true
  | success ↦ true
  | error ↦ false
]

unfoldable pub begin_load : Text → Text → Tables → Tables
begin_load schema table tables =
    let existing = lookup (dotted schema table) tables in
    if is_underway existing
    then tables
    else insert (dotted schema table)
        (record { structure = structure_of existing; status = loading; message = none }) tables

unfoldable pub set_structure : Text → Text → TableStructure → Tables → Tables
set_structure schema table structure tables =
    insert (dotted schema table)
      (record { structure = structure; status = success; message = none }) tables

unfoldable pub set_error : Text → Text → Text → Tables → Tables
set_error schema table e tables =
    insert (dotted schema table)
      (record {
        structure = structure_of (lookup (dotted schema table) tables);
        status = error;
        message = some e;
      })
      tables

unfoldable pub invalidate : Text → Text → Tables → Tables
invalidate schema table tables = erase_if (λ k. same k (dotted schema table)) tables

pub data StructureCall : Type 0 where
  begins : StructureCall
  sets : TableStructure → StructureCall
  fails : Text → StructureCall
  invalidates : StructureCall

pub record StructureAction : Type 0 where
  pub schema : Text
  pub table : Text
  pub call : StructureCall

unfoldable pub act : StructureAction → Tables → Tables
unfolding begin_load set_structure set_error invalidate
act a tables = elim a.call [
  | begins ↦ begin_load a.schema a.table tables
  | sets structure ↦ set_structure a.schema a.table structure tables
  | fails e ↦ set_error a.schema a.table e tables
  | invalidates ↦ invalidate a.schema a.table tables
]

unfoldable pub act_all : List StructureAction → Tables → Tables
unfolding act
act_all [] tables = tables
act_all (a ∷ actions) tables = act_all actions (act a tables)
