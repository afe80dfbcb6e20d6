-- ===== src/Editing/Drawn.antt =====
-- What the grid (frontend/src/workbench/tabs/TableTab/components/grid/TableDataGrid.tsx) draws, against
-- what the statements of the queue write.
use vaultsql.Prelude.{
  Bool, true, false, not, ◌&&◌, ◌||◌, List, [], ◌∷◌, Text, same, any, if◌then◌else◌,
}
use vaultsql.Database.Mutations.{Value}
use vaultsql.Sql.Rows.{written}
use vaultsql.Queue.Entries.{Payload, update_row, MutationEntry}
use vaultsql.Editing.Pending.{to_string, is_nullish}
use vaultsql.Editing.Shown.{assigned}

-- A condition `column = a` holds of a row with the key `b`: both are there and read alike.
abbrev pub is_met : Value → Value → Bool
is_met a b = not (is_nullish a) && (not (is_nullish b) && same (to_string a) (to_string b))

-- The value of a cell of the row with this key after the statement of a change has been carried out:
-- an update writes the columns that take no default.
abbrev pub carried_out : Bool → Value → Payload → Text → Value → Value
carried_out true key (update_row values primary_key) c v =
    if is_met primary_key.value key then assigned (written values) c v else v
carried_out _ key _ c v = v

-- The value of a cell after the statements of the queue, in order.
abbrev pub all_carried_out : Text → Value → List MutationEntry → Text → Value → Value
all_carried_out target key [] c v = v
all_carried_out target key (entry ∷ entries) c v =
    all_carried_out target key entries c
      (carried_out (same entry.target target) key entry.payload c v)

-- An update that sets a column to its default, or whose row has no key.
abbrev pub is_irregular : Payload → Bool
is_irregular (update_row values primary_key) =
    any (λ mv. mv.use_default) values || is_nullish primary_key.value
is_irregular _ = false
