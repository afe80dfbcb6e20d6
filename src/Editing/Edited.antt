-- ===== src/Editing/Edited.antt =====
-- What the grid shows after the handlers of
-- frontend/src/workbench/tabs/TableTab/components/{grid/TableDataGrid,toolbars/TableToolbar}.tsx
-- have queued changes.
use vaultsql.Prelude.{
  ℕ, Bool, true, false, ◌&&◌, List, [], ◌∷◌, ◌++◌, some, ◌≡◌, refl, ap, ◌∙◌, sym, Text, same,
  same_refl, truthy, get_elem?, if◌then◌else◌,
}
use vaultsql.Database.Mutations.{Value, MutationColumnValue}
use vaultsql.TableTab.State.{Row}
use vaultsql.Queue.Entries.{
  Payload, update_row, MutationEntry, create_target, act, create_mutation_entry,
}
use vaultsql.Editing.Pending.{to_string, cell, new_value, get_pending_update_edits, drawn_value}
use vaultsql.Editing.Shown.{updated, replayed, drawn_value-replayed}
use vaultsql.Editing.Handlers.{
  EditedTable, Stores, Stamp, primary_key_column, queue_with_pin, handle_cell_edit,
}

replayed-append :
    (target key : Text) (entries : List MutationEntry) (e : MutationEntry) (c : Text) (v : Value)
    → replayed target key (entries ++ e ∷ []) c v
      ≡ updated (same e.target target) key e.payload c (replayed target key entries c v)
replayed-append target key [] e c v = refl
replayed-append target key (entry ∷ entries) e c v = replayed-append target key entries e c _

both :
    (hit named : Bool) (new old : Value)
    → (if hit then (if named then new else old) else old) ≡ (if hit && named then new else old)
both true named new old = refl
both false named new old = refl

thrice :
    (keyed hit named : Bool) (new old loaded : Value)
    → (if keyed then (if hit then (if named then new else old) else old) else loaded)
      ≡ (if keyed && (hit && named) then new else (if keyed then old else loaded))
thrice true hit named new old loaded = both hit named new old
thrice false hit named new old loaded = refl

abbrev edit : Text → Value → Bool → Bool → MutationColumnValue
edit column value is_null use_default = record {
  column = column;
  value = value;
  is_null = is_null;
  use_default = use_default;
}

handle_cell_edit-queue :
    (t : EditedTable) (stamp : Stamp) (rows : List Row) (index : ℕ) (column : Text) (value : Value)
    (is_null use_default : Bool) (s : Stores) (pk : Text) (edited_row : Row)
    → primary_key_column t.columns ≡ some pk
    → get_elem? rows index ≡ some edited_row
    → handle_cell_edit t stamp rows index column value is_null use_default s
      ≡ queue_with_pin t stamp
          (update_row
            (edit column value is_null use_default ∷ [])
            (record { column = pk; value = cell edited_row pk }))
          s
unfolding handle_cell_edit
handle_cell_edit-queue t stamp rows index column value is_null use_default s pk edited_row keyed
      found =
    rw (keyed, found, handle_cell_edit) refl

-- A row is drawn as the queued change leaves it.
drawn_value-queue_with_pin :
    (t : EditedTable) (stamp : Stamp) (payload : Payload) (s : Stores) (pk : Text) (row : Row)
    (c : Text)
    → let target = create_target t.schema t.table in
      let key = to_string (cell row pk) in
      drawn_value
        (some pk)
        (get_pending_update_edits (queue_with_pin t stamp payload s).entries t.schema t.table)
        row
        c
      ≡ (if truthy key
          then updated true key payload c (replayed target key s.entries c (cell row c))
          else cell row c)
unfolding queue_with_pin act create_mutation_entry
drawn_value-queue_with_pin t stamp payload s pk row c =
    let target = create_target t.schema t.table in
    let key = to_string (cell row pk) in
    drawn_value-replayed _ t.schema t.table pk row c
    ∙ ap (λ v. if truthy key then v else cell row c)
        (replayed-append target key s.entries _ c (cell row c) ∙ rw (same_refl target) refl)

-- A cell of a row that is there is edited in a table with a primary key. Every cell that is not being
-- edited is drawn then with the new value (NULL if it is so marked) if it is in this column, of a row
-- whose key reads as the edited row's and as a text that is not empty, and else as before.
pub handle_cell_edit_lem :
    (t : EditedTable) (stamp : Stamp) (rows : List Row) (index : ℕ) (column : Text) (value : Value)
    (is_null use_default : Bool) (s : Stores) (pk : Text) (edited_row row : Row) (c : Text)
    → primary_key_column t.columns ≡ some pk
    → get_elem? rows index ≡ some edited_row
    → let s' = handle_cell_edit t stamp rows index column value is_null use_default s in
      let key = to_string (cell row pk) in
      drawn_value (some pk) (get_pending_update_edits s'.entries t.schema t.table) row c ≡ (
        if truthy key && (same (to_string (cell edited_row pk)) key && same column c)
        then new_value (record {
          column = column;
          value = value;
          is_null = is_null;
          use_default = use_default;
        })
        else drawn_value (some pk) (get_pending_update_edits s.entries t.schema t.table) row c)
handle_cell_edit_lem t stamp rows index column value is_null use_default s pk edited_row row c keyed
      found =
    let mv = edit column value is_null use_default in
    let key = to_string (cell row pk) in
    let now = replayed (create_target t.schema t.table) key s.entries c (cell row c) in
    ap (λ s'. drawn_value (some pk) (get_pending_update_edits s'.entries t.schema t.table) row c)
      (handle_cell_edit-queue t stamp rows index column value is_null use_default s pk edited_row
        keyed found)
    ∙ (drawn_value-queue_with_pin t stamp _ s pk row c
        ∙ (thrice (truthy key) (same (to_string (cell edited_row pk)) key) (same column c)
              (new_value mv) now (cell row c)
            ∙ ap
                (λ v.
                  if truthy key && (same (to_string (cell edited_row pk)) key && same column c)
                  then new_value mv
                  else v)
                (sym (drawn_value-replayed s.entries t.schema t.table pk row c))))
