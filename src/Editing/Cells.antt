-- ===== src/Editing/Cells.antt =====
-- The cells being edited, the row in the details pane and the selection of rows, which
-- frontend/src/workbench/tabs/TableTab/components/grid/TableDataGrid.tsx keeps beside the stores.
-- After each event the component is drawn again, and its effects run.
use vaultsql.Prelude.{
  ℕ, zero, suc, ◌-◌, min, max, Bool, true, false, not, ◌&&◌, List, [], ◌∷◌, ◌++◌, Option, none,
  some, Text, has, length, get_elem?, ltb, ◌==◌, if◌then◌else◌,
}
use vaultsql.Database.Mutations.{Value}
use vaultsql.Database.Columns.{ColumnInfo}
use vaultsql.TableTab.State.{Row}
use vaultsql.TableTab.Actions.{toggle, count_up}
use vaultsql.Editing.Pending.{cell, get_pending_update_edits, get_display_value}
use vaultsql.Editing.Handlers.{EditedTable, Stamp, Stores, primary_key_column, handle_cell_edit}

pub record EditDialog : Type 0 where
  pub row_index : ℕ
  pub column : ColumnInfo
  pub value : Value
  pub pending_value : Value

-- `details_row` is the row that the store shows in the details pane.
pub record GridState : Type 0 where
  pub stores : Stores
  pub rows : List Row
  pub anchor : Option ℕ
  pub details_row_index : Option ℕ
  pub details_row : Option Row
  pub editing_cell : Option (ℕ × Text)
  pub edit_dialog_cell : Option EditDialog

abbrev pub is_multi_select : GridState → Bool
is_multi_select s = ltb 1 (length s.stores.selected)

abbrev pub is_there {ℓ} : {A : Type ℓ} → Option A → Bool
is_there none = false
is_there (some a) = true

abbrev pub may_edit : EditedTable → Bool
may_edit t = t.can_update_data && is_there (primary_key_column t.columns)

-- `canUpdateData`, a primary key, and no more than one row selected
abbrev pub can_edit : EditedTable → GridState → Bool
can_edit t s = may_edit t && not (is_multi_select s)

abbrev with_selected : List ℕ → GridState → GridState
with_selected selected s = record s { stores = record s.stores { selected = selected } }

-- `for (let i = start; i <= end; i++) newSelection.add(i)`, by the rounds left.
abbrev pub add_rows : ℕ → ℕ → List ℕ → List ℕ
add_rows i zero selected = selected
add_rows i (suc n) selected =
    add_rows (suc i) n (if has i selected then selected else selected ++ i ∷ [])

abbrev pub range_or_toggle : Bool → Option ℕ → ℕ → GridState → GridState
range_or_toggle true (some anchor) index s =
    with_selected
      (add_rows (min anchor index) (suc (max anchor index - min anchor index)) s.stores.selected) s
range_or_toggle _ _ index s = record (with_selected (toggle index s.stores.selected) s) {
  anchor = some index;
}

-- A click with the control key does what one without does.
unfoldable pub handle_row_checkbox_click : ℕ → Bool → GridState → GridState
unfolding toggle
handle_row_checkbox_click index shift s = range_or_toggle shift s.anchor index s

unfoldable pub handle_select_all_change : GridState → GridState
unfolding count_up
handle_select_all_change s =
    let all_selected = (length s.stores.selected == length s.rows) && ltb 0 (length s.rows) in
    record (with_selected (if all_selected then [] else count_up 0 (length s.rows)) s) {
      anchor = none;
    }

unfoldable pub handle_show_details : ℕ → GridState → GridState
handle_show_details index s =
    if is_multi_select s
    then s
    else record s { details_row_index = some index; details_row = get_elem? s.rows index }

unfoldable pub handle_start_edit : EditedTable → ℕ → Text → GridState → GridState
unfolding primary_key_column
handle_start_edit t index column s =
    if can_edit t s then record s { editing_cell = some (index, column) } else s

unfoldable pub handle_open_edit_dialog : EditedTable → ℕ → ColumnInfo → Row → GridState → GridState
unfolding primary_key_column get_display_value get_pending_update_edits
handle_open_edit_dialog t index column row s =
    if can_edit t s
    then record s {
      editing_cell = none;
      edit_dialog_cell = some (record {
        row_index = index;
        column = column;
        value = cell row column.name;
        pending_value =
            get_display_value (primary_key_column t.columns)
              (get_pending_update_edits s.stores.entries t.schema t.table) row column.name;
      });
    }
    else s

-- handleCellEdit ends the editing of a cell where it queues its change.
unfoldable pub finish_cell_edit :
    EditedTable → Stamp → ℕ → Text → Value → Bool → Bool → GridState → GridState
unfolding handle_cell_edit primary_key_column
finish_cell_edit t stamp index column value is_null use_default s =
    let s' = record s {
      stores = handle_cell_edit t stamp s.rows index column value is_null use_default s.stores;
    } in
    if is_there (primary_key_column t.columns) && is_there (get_elem? s.rows index)
    then record s' { editing_cell = none }
    else s'

abbrev pub save_dialog :
    EditedTable → Stamp → Value → Bool → Bool → Option EditDialog → GridState → GridState
save_dialog t stamp value is_null use_default none s = s
save_dialog t stamp value is_null use_default (some d) s =
    record (finish_cell_edit t stamp d.row_index d.column.name value is_null use_default s) {
      edit_dialog_cell = none;
    }

unfoldable pub handle_dialog_save :
    EditedTable → Stamp → Value → Bool → Bool → GridState → GridState
unfolding finish_cell_edit
handle_dialog_save t stamp value is_null use_default s =
    save_dialog t stamp value is_null use_default s.edit_dialog_cell s

pub data GridEvent : Type 0 where
  checkbox_click : ℕ → Bool → GridEvent
  select_all_change : GridEvent
  show_details : ℕ → GridEvent
  start_edit : ℕ → Text → GridEvent
  open_edit_dialog : ℕ → ColumnInfo → Row → GridEvent
  cell_edit : Stamp → ℕ → Text → Value → Bool → Bool → GridEvent
  cancel_edit : GridEvent
  dialog_save : Stamp → Value → Bool → Bool → GridEvent
  close_dialog : GridEvent
  rows_change : List Row → GridEvent

unfoldable pub handle : EditedTable → GridEvent → GridState → GridState
unfolding handle_row_checkbox_click handle_select_all_change handle_show_details handle_start_edit
    handle_open_edit_dialog finish_cell_edit handle_dialog_save
handle t (checkbox_click index shift) s = handle_row_checkbox_click index shift s
handle t select_all_change s = handle_select_all_change s
handle t (show_details index) s = handle_show_details index s
handle t (start_edit index column) s = handle_start_edit t index column s
handle t (open_edit_dialog index column row) s = handle_open_edit_dialog t index column row s
handle t (cell_edit stamp index column value is_null use_default) s =
    finish_cell_edit t stamp index column value is_null use_default s
handle t cancel_edit s = record s { editing_cell = none }
handle t (dialog_save stamp value is_null use_default) s =
    handle_dialog_save t stamp value is_null use_default s
handle t close_dialog s = record s { edit_dialog_cell = none }
handle t (rows_change rows) s = record s { rows = rows; details_row_index = none }

abbrev pub cleared : GridState → GridState
cleared s = record s {
  details_row_index = none;
  details_row = none;
  editing_cell = none;
  edit_dialog_cell = none;
}

-- The effects that run when the number of rows has changed, or the selection has come to hold more
-- than one row.
abbrev pub on_length : Bool → GridState → GridState
on_length same_length s = if same_length then s else record s { editing_cell = none }

abbrev pub on_multi_select : Bool → GridState → GridState
on_multi_select was_multi s = if is_multi_select s && not was_multi then cleared s else s

unfoldable pub run_effects : GridState → GridState → GridState
run_effects before s =
    on_multi_select (is_multi_select before) (on_length (length before.rows == length s.rows) s)

unfoldable pub grid_step : EditedTable → GridState → GridEvent → GridState
unfolding handle run_effects
grid_step t s event = run_effects s (handle t event s)
