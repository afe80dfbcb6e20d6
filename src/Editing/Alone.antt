-- ===== src/Editing/Alone.antt =====
-- Nothing is edited while several rows are selected
-- (frontend/src/workbench/tabs/TableTab/components/grid/TableDataGrid.tsx).
use vaultsql.Prelude.{
  ℕ, Bool, true, false, not, ◌&&◌, ◌||◌, List, [], ◌∷◌, Option, none, some, ◌≡◌, refl, ap, sym,
  subst, inl, inr, arith, Text, get_elem?, Bool-cases,
}
use vaultsql.Database.Mutations.{Value}
use vaultsql.Database.Columns.{ColumnInfo}
use vaultsql.TableTab.State.{Row}
use vaultsql.Editing.Handlers.{EditedTable, Stamp, primary_key_column}
use vaultsql.Editing.Cells.{
  GridState, GridEvent, EditDialog, is_multi_select, is_there, may_edit, can_edit, cleared,
  on_length, on_multi_select, handle, run_effects, grid_step, finish_cell_edit, save_dialog,
  range_or_toggle, handle_dialog_save, handle_show_details, handle_start_edit,
  handle_open_edit_dialog, handle_row_checkbox_click, handle_select_all_change, checkbox_click,
  select_all_change, show_details, start_edit, open_edit_dialog, cell_edit, cancel_edit,
  dialog_save, close_dialog, rows_change,
}

module _ (t : EditedTable) where
  -- With several rows selected or not: what is being edited needs the right to change data, a key,
  -- and that at most one row is selected; a row in the details needs the last.
  pub record IsHeld (multi : Bool) (s : GridState) : Type 0 where
    pub cell_held : (is_there s.editing_cell && not (may_edit t && not multi)) ≡ false
    pub dialog_held : (is_there s.edit_dialog_cell && not (may_edit t && not multi)) ≡ false
    pub details_held : ((is_there s.details_row_index || is_there s.details_row) && multi) ≡ false

  abbrev pub IsAlone : GridState → Type 0
  IsAlone s = IsHeld (is_multi_select s) s

  on_length-IsHeld :
      (b multi : Bool) (s : GridState) → IsHeld multi s → IsHeld multi (on_length b s)
  on_length-IsHeld true multi s h = h
  on_length-IsHeld false multi s h = record {
    cell_held = refl;
    dialog_held = h.dialog_held;
    details_held = h.details_held;
  }

  IsHeld-fewer : (multi : Bool) (s : GridState) → IsHeld multi s → IsHeld false s
  IsHeld-fewer multi s h = record {
    cell_held = fewer multi (is_there s.editing_cell) (may_edit t) h.cell_held;
    dialog_held = fewer multi (is_there s.edit_dialog_cell) (may_edit t) h.dialog_held;
    details_held = ground arith;
  }
    where
      fewer :
          (multi a m : Bool)
          → (a && not (m && not multi)) ≡ false
          → (a && not (m && not false)) ≡ false
      fewer true false m h = refl
      fewer true true true h = refl
      fewer true true false h = h
      fewer false a m h = h

  on_multi_select-IsAlone :
      (was : Bool) (s : GridState) → IsHeld was s → IsAlone (on_multi_select was s)
  on_multi_select-IsAlone was s h = elim (Bool-cases (is_multi_select s)) [
    | inl now ↦ came was h now
    | inr now ↦
        let step : on_multi_select was s ≡ s = rw (on_multi_select, now) refl in
        subst IsAlone (sym step) (subst (λ m. IsHeld m s) (sym now) (IsHeld-fewer was s h))
  ]
    where
      came :
          (was : Bool) → IsHeld was s → is_multi_select s ≡ true → IsAlone (on_multi_select was s)
      came true h now =
          let step : on_multi_select true s ≡ s = rw (on_multi_select, now) refl in
          subst IsAlone (sym step) (subst (λ m. IsHeld m s) (sym now) h)
      came false h now =
          let step : on_multi_select false s ≡ cleared s = rw (on_multi_select, now) refl in
          subst IsAlone (sym step)
            (record { cell_held = refl; dialog_held = refl; details_held = refl })

  handle_show_details-IsHeld :
      (index : ℕ) (s : GridState)
      → IsAlone s
      → IsHeld (is_multi_select s) (handle_show_details index s)
  unfolding handle_show_details
  handle_show_details-IsHeld index s h = elim (Bool-cases (is_multi_select s)) [
    | inl e ↦ subst (IsHeld (is_multi_select s)) (sym (kept e)) h
    | inr e ↦
        subst (IsHeld (is_multi_select s)) (sym (shown e))
          (record { cell_held = h.cell_held; dialog_held = h.dialog_held; details_held = e })
  ]
    where
      kept : is_multi_select s ≡ true → handle_show_details index s ≡ s
      kept e = rw (handle_show_details, e) refl

      shown :
          is_multi_select s ≡ false
          → handle_show_details index s
            ≡ record s { details_row_index = some index; details_row = get_elem? s.rows index }
      shown e = rw (handle_show_details, e) refl

  handle_start_edit-IsHeld :
      (index : ℕ) (column : Text) (s : GridState)
      → IsAlone s
      → IsHeld (is_multi_select s) (handle_start_edit t index column s)
  unfolding handle_start_edit
  handle_start_edit-IsHeld index column s h = elim (Bool-cases (can_edit t s)) [
    | inl e ↦ rw e (record {
      cell_held = ap not e;
      dialog_held = h.dialog_held;
      details_held = h.details_held;
    })
    | inr e ↦ rw e h
  ]

  handle_open_edit_dialog-IsHeld :
      (index : ℕ) (column : ColumnInfo) (row : Row) (s : GridState)
      → IsAlone s
      → IsHeld (is_multi_select s) (handle_open_edit_dialog t index column row s)
  unfolding handle_open_edit_dialog
  handle_open_edit_dialog-IsHeld index column row s h = elim (Bool-cases (can_edit t s)) [
    | inl e ↦
        rw e (record { cell_held = refl; dialog_held = ap not e; details_held = h.details_held })
    | inr e ↦ rw e h
  ]

  finish_cell_edit-IsHeld :
      (stamp : Stamp) (index : ℕ) (column : Text) (value : Value) (is_null use_default multi : Bool)
      (s : GridState)
      → IsHeld multi s
      → IsHeld multi (finish_cell_edit t stamp index column value is_null use_default s)
  unfolding finish_cell_edit
  finish_cell_edit-IsHeld stamp index column value is_null use_default multi s h =
      elim (Bool-cases
        (is_there (primary_key_column t.columns) && is_there (get_elem? s.rows index))) [
          | inl e ↦ rw e (record {
            cell_held = refl;
            dialog_held = h.dialog_held;
            details_held = h.details_held;
          })
          | inr e ↦ rw e (record {
            cell_held = h.cell_held;
            dialog_held = h.dialog_held;
            details_held = h.details_held;
          })
        ]

  save_dialog-IsHeld :
      (stamp : Stamp) (value : Value) (is_null use_default multi : Bool) (d : Option EditDialog)
      (s : GridState)
      → IsHeld multi s
      → IsHeld multi (save_dialog t stamp value is_null use_default d s)
  save_dialog-IsHeld stamp value is_null use_default multi none s h = h
  save_dialog-IsHeld stamp value is_null use_default multi (some d) s h =
      let kept =
        finish_cell_edit-IsHeld stamp d.row_index d.column.name value is_null use_default multi s
          h in
      record { cell_held = kept.cell_held; dialog_held = refl; details_held = kept.details_held }

  range_or_toggle-IsHeld :
      (shift : Bool) (anchor : Option ℕ) (index : ℕ) (multi : Bool) (s : GridState)
      → IsHeld multi s
      → IsHeld multi (range_or_toggle shift anchor index s)
  range_or_toggle-IsHeld true none index multi s h = record {
    cell_held = h.cell_held;
    dialog_held = h.dialog_held;
    details_held = h.details_held;
  }
  range_or_toggle-IsHeld true (some a) index multi s h = record {
    cell_held = h.cell_held;
    dialog_held = h.dialog_held;
    details_held = h.details_held;
  }
  range_or_toggle-IsHeld false anchor index multi s h = record {
    cell_held = h.cell_held;
    dialog_held = h.dialog_held;
    details_held = h.details_held;
  }

  handle-IsHeld :
      (e : GridEvent) (s : GridState) → IsAlone s → IsHeld (is_multi_select s) (handle t e s)
  unfolding handle handle_row_checkbox_click handle_select_all_change handle_dialog_save
  handle-IsHeld (checkbox_click index shift) s h = range_or_toggle-IsHeld shift s.anchor index _ s h
  handle-IsHeld select_all_change s h = record {
    cell_held = h.cell_held;
    dialog_held = h.dialog_held;
    details_held = h.details_held;
  }
  handle-IsHeld (show_details index) s h = handle_show_details-IsHeld index s h
  handle-IsHeld (start_edit index column) s h = handle_start_edit-IsHeld index column s h
  handle-IsHeld (open_edit_dialog index column row) s h =
      handle_open_edit_dialog-IsHeld index column row s h
  handle-IsHeld (cell_edit stamp index column value is_null use_default) s h =
      finish_cell_edit-IsHeld stamp index column value is_null use_default _ s h
  handle-IsHeld cancel_edit s h = record {
    cell_held = refl;
    dialog_held = h.dialog_held;
    details_held = h.details_held;
  }
  handle-IsHeld (dialog_save stamp value is_null use_default) s h =
      save_dialog-IsHeld stamp value is_null use_default _ s.edit_dialog_cell s h
  handle-IsHeld close_dialog s h = record {
    cell_held = h.cell_held;
    dialog_held = refl;
    details_held = h.details_held;
  }
  handle-IsHeld (rows_change rows) s h = record {
    cell_held = h.cell_held;
    dialog_held = h.dialog_held;
    details_held =
        without (is_there s.details_row_index) (is_there s.details_row) (is_multi_select s)
          h.details_held;
  }
    where
      without : (a b m : Bool) → ((a || b) && m) ≡ false → (b && m) ≡ false
      without true b true h = ground (arith, h)
      without true b false h = ground arith
      without false b m h = h

  grid_step-IsAlone : (s : GridState) (e : GridEvent) → IsAlone s → IsAlone (grid_step t s e)
  unfolding grid_step run_effects
  grid_step-IsAlone s e h =
      on_multi_select-IsAlone (is_multi_select s) _
        (on_length-IsHeld _ _ (handle t e s) (handle-IsHeld e s h))

  abbrev pub grid_steps : List GridEvent → GridState → GridState
  grid_steps [] s = s
  grid_steps (e ∷ events) s = grid_steps events (grid_step t s e)

-- From a state in which it is so, whatever happens in the grid: a cell or a dialog that is open
-- means that the user can change data, that the table has a primary key, and that at most one row
-- is selected; a row in the details means the last.
pub grid_steps-IsHeld :
    (t : EditedTable) (events : List GridEvent) (s : GridState)
    → IsHeld t (is_multi_select s) s
    → let s' = grid_steps t events s in IsHeld t (is_multi_select s') s'
grid_steps-IsHeld t [] s h = h
grid_steps-IsHeld t (e ∷ events) s h =
    grid_steps-IsHeld t events (grid_step t s e) (grid_step-IsAlone t s e h)
