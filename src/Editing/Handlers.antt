-- ===== src/Editing/Handlers.antt =====
-- The handlers of frontend/src/workbench/tabs/TableTab/components that queue changes: those of
-- grid/TableDataGrid.tsx and toolbars/TableToolbar.tsx, and useTableTabMutations of
-- state/TableTabContext.tsx, whose queueing pins a preview tab. Ids and times come from the runtime,
-- one of each for every change. No column has an empty name.
use vaultsql.Prelude.{
  ℕ, Bool, false, ◌||◌, List, [], ◌∷◌, Option, none, some, Text, same, find, get_elem?,
  if◌then◌else◌,
}
use vaultsql.Database.Mutations.{Value, MutationColumnValue}
use vaultsql.Database.Columns.{ColumnInfo}
use vaultsql.Tabs.Store.{TabsState, pin_tab}
use vaultsql.TableTab.State.{Row}
use vaultsql.Queue.Entries.{
  Payload, insert_row, update_row, delete_row, MutationEntry, create_target, create_mutation_entry,
  queue, act,
}
use vaultsql.Editing.Pending.{is_nullish, is_null_value, cell}

-- The tab that is edited, as the component was last drawn.
pub record EditedTable : Type 0 where
  pub tab_id : Text
  pub is_preview : Bool
  pub schema : Text
  pub table : Text
  pub columns : List ColumnInfo
  pub can_update_data : Bool

-- The stores that the handlers change: the queue, the tabs, and the selection of rows.
pub record Stores : Type 0 where
  pub entries : List MutationEntry
  pub tabs : TabsState
  pub selected : List ℕ

-- A new id, and the time.
abbrev pub Stamp : Type 0
Stamp = Text × ℕ

-- `mutations.queue(type, createTarget(schema, table), payload)` of useTableTabMutations
unfoldable pub queue_with_pin : EditedTable → Stamp → Payload → Stores → Stores
unfolding create_target create_mutation_entry act pin_tab
queue_with_pin t (uuid, now) payload s = record s {
  tabs = if t.is_preview then pin_tab t.tab_id s.tabs else s.tabs;
  entries =
      act (queue (create_mutation_entry uuid now (create_target t.schema t.table) payload))
        s.entries;
}

-- `columns.find((col) => col.isPrimaryKey)?.name ?? null`
abbrev name_of_column : Option ColumnInfo → Option Text
name_of_column none = none
name_of_column (some c) = some c.name

unfoldable pub primary_key_column : List ColumnInfo → Option Text
primary_key_column columns = name_of_column (find (λ col. col.is_primary_key) columns)

abbrev pub is_named : Text → ColumnInfo → Bool
is_named name column = same column.name name

abbrev pub has_column : Text → List ColumnInfo → Bool
has_column name [] = false
has_column name (c ∷ cs) = is_named name c || has_column name cs

-- The values of handleAddRowSubmit, of the object that the dialog gives.
unfoldable pub mutation_values : List ColumnInfo → Row → List MutationColumnValue
mutation_values columns [] = []
mutation_values columns ((name, value) ∷ values) =
    let rest = mutation_values columns values in
    if has_column name columns
    then record { column = name; value = value; is_null = is_null_value value; use_default = false }
      ∷ rest
    else rest

unfoldable pub handle_add_row_submit : EditedTable → Stamp → Row → Stores → Stores
unfolding queue_with_pin mutation_values
handle_add_row_submit t stamp values s =
    queue_with_pin t stamp (insert_row (mutation_values t.columns values)) s

-- One turn of the loop of handleDeleteSelectedRows.
abbrev pub delete_row_of : EditedTable → Text → Stamp → Option Row → Stores → Stores
delete_row_of t pk stamp none s = s
delete_row_of t pk stamp (some row) s =
    if is_nullish (cell row pk)
    then s
    else queue_with_pin t stamp (delete_row (record { column = pk; value = cell row pk })) s

-- The stamps are taken by the rows that are deleted; here each row number has its own.
unfoldable pub delete_rows : EditedTable → Text → (ℕ → Stamp) → List Row → List ℕ → Stores → Stores
unfolding queue_with_pin
delete_rows t pk stamps rows [] s = s
delete_rows t pk stamps rows (index ∷ indices) s =
    delete_rows t pk stamps rows indices
      (delete_row_of t pk (stamps index) (get_elem? rows index) s)

unfoldable pub handle_delete_selected_rows : EditedTable → (ℕ → Stamp) → List Row → Stores → Stores
unfolding primary_key_column delete_rows
handle_delete_selected_rows t stamps rows s = elim (primary_key_column t.columns) [
  | none ↦ s
  | some pk ↦ record (delete_rows t pk stamps rows s.selected s) { selected = [] }
]

-- The update of handleCellEdit, where the row is there; the flags that are not given are false.
abbrev edit_row :
    EditedTable → Text → Stamp → Text → Value → Bool → Bool → Option Row → Stores → Stores
edit_row t pk stamp column_name new_value is_null use_default none s = s
edit_row t pk stamp column_name new_value is_null use_default (some row) s =
    queue_with_pin t stamp
      (update_row
        (record {
          column = column_name;
          value = new_value;
          is_null = is_null;
          use_default = use_default;
        }
          ∷ [])
        (record { column = pk; value = cell row pk }))
      s

unfoldable pub handle_cell_edit :
    EditedTable → Stamp → List Row → ℕ → Text → Value → Bool → Bool → Stores → Stores
unfolding primary_key_column queue_with_pin
handle_cell_edit t stamp rows index column_name new_value is_null use_default s =
    elim (primary_key_column t.columns) [
      | none ↦ s
      | some pk ↦
          edit_row t pk stamp column_name new_value is_null use_default (get_elem? rows index) s
    ]
