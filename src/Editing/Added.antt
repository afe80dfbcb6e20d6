-- ===== src/Editing/Added.antt =====
-- A new row, from the dialog (dialogs/AddRowDialog.tsx of
-- frontend/src/workbench/tabs/TableTab/components) through the toolbar (toolbars/TableToolbar.tsx)
-- into the queue.
use vaultsql.Prelude.{
  true, false, List, [], ◌∷◌, ◌++◌, map, Option, none, some, ◌≡◌, ◌⊎◌, Text, find, Unique,
}
use vaultsql.Database.Mutations.{Value, MutationColumnValue}
use vaultsql.Database.Columns.{ColumnInfo}
use vaultsql.TableTab.State.{Row}
use vaultsql.Queue.Entries.{insert_row, create_target}
use vaultsql.Editing.Pending.{is_for, is_null_value}
use vaultsql.Editing.Handlers.{EditedTable, Stamp, Stores, handle_add_row_submit}
use vaultsql.Editing.AddRow.{Runtime, Values, visible_columns, handle_submit}
use vaultsql.Editing.Deleted.{changes}
use vaultsql.Editing.Entered.{entry_in, any_thrown}

-- The value of a column as the queue has it.
abbrev pub written_as : Text → Option Value → Option MutationColumnValue
written_as name none = none
written_as name (some v) =
    some (record { column = name; value = v; is_null = is_null_value v; use_default = false })

-- The values of an insert by column.
abbrev pub by_column : List MutationColumnValue → List (Text × MutationColumnValue)
by_column mvs = map (λ mv. (mv.column, mv)) mvs

-- The toolbar queues, behind the changes that are there, one insert of these values into the table.
abbrev pub QueuesOne : EditedTable → Stamp → Row → Stores → List MutationColumnValue → Type 0
QueuesOne t stamp result s mvs =
    changes (handle_add_row_submit t stamp result s).entries
    ≡ changes s.entries ++ (create_target t.schema t.table, insert_row mvs) ∷ []

-- An insert with the value that was entered for each column, and nothing else.
abbrev pub HasEntries : Runtime → Values → List ColumnInfo → List MutationColumnValue → Type 0
HasEntries r values visible mvs =
    Unique (by_column mvs)
    × ((name : Text) → find (is_for name) mvs ≡ written_as name (entry_in r values name visible))

abbrev pub SubmittedOrNot : Runtime → EditedTable → Stamp → Values → Stores → Type 0
SubmittedOrNot r t stamp values s =
    let visible = visible_columns t.columns in
    ((any_thrown r values visible ≡ true) × (handle_submit r t.columns values ≡ none))
    ⊎ ((result : Row) × (handle_submit r t.columns values ≡ some result)
        × (any_thrown r values visible ≡ false)
        × (mvs : List MutationColumnValue) × QueuesOne t stamp result s mvs
        × HasEntries r values visible mvs)
