-- ===== src/Examples/EditingRuns.antt =====
-- A table with a key, a name and an age, whose rows are edited.
use vaultsql.Prelude.{
  Bool, true, false, ◌&&◌, truthy, ◌||◌, List, [], ◌∷◌, ◌++◌, none, some, ◌≡◌, refl, Text, codes,
  any, get_elem?, All,
}
use vaultsql.Database.Mutations.{null, string, number}
use vaultsql.Database.Columns.{ColumnInfo, ForeignKeyInfo}
use vaultsql.Database.Filters.{ColumnCategory, all_of}
use vaultsql.Tabs.Store.{initial}
use vaultsql.TableTab.State.{Row, create_table_tab_store}
use vaultsql.Queue.Entries.{MutationEntry, update_row}
use vaultsql.Postgres.Rows.{build_insert_query}
use vaultsql.Editing.Pending.{
  to_string, cell, get_pending_update_edits, get_pending_delete_pks, drawn_value, is_pending_delete,
}
use vaultsql.Editing.Handlers.{
  EditedTable, Stamp, Stores, primary_key_column, handle_cell_edit, handle_delete_selected_rows,
}
use vaultsql.Editing.Edited.{handle_cell_edit_lem}
use vaultsql.Editing.Deleted.{changes, deletions, is_keyed, handle_delete_selected_rows_lem}
use vaultsql.Editing.AddRow.{Runtime}
use vaultsql.Editing.Cells.{GridState, GridEvent, is_multi_select, start_edit, checkbox_click}
use vaultsql.Editing.Alone.{IsHeld, grid_steps, grid_steps-IsHeld}
use vaultsql.Editing.Menu.{MenuState, build_cell_menu_items, build_row_menu_items}
use vaultsql.Editing.Guarded.{IsHarmless, choose-IsHarmless}

abbrev column : Text → ColumnCategory → Bool → Bool → ColumnInfo
column name category nullable key = record {
  name = name;
  data_type = codes "t";
  nullable = nullable;
  default_value = none;
  is_primary_key = key;
  comment = none;
  category = category;
  has_server_default = false;
  is_generated = false;
  is_auto_increment = key;
}

abbrev users : EditedTable
users = record {
  tab_id = codes "1";
  is_preview = true;
  schema = codes "public";
  table = codes "users";
  columns =
      column (codes "id") ColumnCategory.integer false true
      ∷ column (codes "name") ColumnCategory.text false false
      ∷ column (codes "age") ColumnCategory.integer true false
      ∷ [];
  can_update_data = true;
}

abbrev user_row : Text → Text → Row
user_row id name = (codes "id", number id) ∷ (codes "name", string name) ∷ (codes "age", null) ∷ []

abbrev two_rows : List Row
two_rows = user_row (codes "1") (codes "Ann") ∷ user_row (codes "2") (codes "Ben") ∷ []

abbrev renamed : Text → Text → MutationEntry
renamed id name = record {
  id = codes "e";
  target = codes "public.users";
  payload =
      update_row
        (record { column = codes "name"; value = string name; is_null = false; use_default = false }
          ∷ [])
        (record { column = codes "id"; value = number id });
  created_at = 0;
}

abbrev stores : Stores
stores = record {
  entries =
      renamed (codes "1") (codes "Eve")
      ∷ renamed (codes "2") (codes "Bob")
      ∷ renamed (codes "1") (codes "Zoe")
      ∷ [];
  tabs = initial;
  selected = 1 ∷ 7 ∷ [];
}

abbrev stamp : Stamp
stamp = (codes "9", 5)

keyed : primary_key_column users.columns ≡ some (codes "id")
unfolding primary_key_column
keyed = refl

handle_cell_edit_lem_example :
    drawn_value
      (some (codes "id"))
      (get_pending_update_edits
        (handle_cell_edit users stamp two_rows 1
          (codes "name")
          (string (codes "Max"))
          false
          false
          stores).entries
        (codes "public")
        (codes "users"))
      (user_row (codes "2") (codes "Ben"))
      (codes "name")
    ≡ string (codes "Max")
handle_cell_edit_lem_example =
    handle_cell_edit_lem users stamp two_rows 1 (codes "name") (string (codes "Max")) false false
      stores (codes "id") (user_row (codes "2") (codes "Ben")) (user_row (codes "2") (codes "Ben"))
      (codes "name") keyed refl

abbrev after : Stores
after = handle_delete_selected_rows users (λ i. stamp) two_rows stores

handle_delete_selected_rows_lem_example :
    (changes after.entries
      ≡ changes stores.entries ++ deletions users (codes "id") (number (codes "2") ∷ []))
    × (after.selected ≡ [])
    × ((row : Row)
        → is_pending_delete
            (some (codes "id"))
            (get_pending_delete_pks after.entries (codes "public") (codes "users"))
            row
          ≡ (is_pending_delete
                (some (codes "id"))
                (get_pending_delete_pks stores.entries (codes "public") (codes "users"))
                row
              || (truthy (to_string (cell row (codes "id")))
                  && any
                      (λ i.
                        is_keyed
                          (codes "id")
                          (to_string (cell row (codes "id")))
                          (get_elem? two_rows i))
                      (1 ∷ 7 ∷ []))))
handle_delete_selected_rows_lem_example =
    handle_delete_selected_rows_lem users (λ i. stamp) two_rows stores (codes "id") keyed

abbrev runtime : Runtime
runtime = record {
  parse_int = some;
  parse_float = some;
  parse_json = λ t. none;
  to_iso_string = λ n. none;
}

abbrev name_column : ColumnInfo
name_column = column (codes "name") ColumnCategory.text true false

abbrev menu_state : MenuState
menu_state = record { stores = stores; store = create_table_tab_store [] all_of; fetched = [] }

abbrev user_key : ForeignKeyInfo
user_key = record {
  constraint_name = codes "k";
  column = codes "name";
  ref_schema = codes "public";
  ref_table = codes "people";
  ref_column = codes "name";
  on_update = [];
  on_delete = [];
}

choose-IsHarmless_example :
    All
      (IsHarmless users
        (user_key ∷ [])
        stamp
        two_rows
        0
        (user_row (codes "1") (codes "Ann"))
        menu_state)
      (build_cell_menu_items
          (λ v. [])
          (codes "name")
          (some name_column)
          (string (codes "Ann"))
          (some (codes "id"))
          (codes "name" ∷ [])
          false
        ++ build_row_menu_items build_insert_query
            (codes "public")
            (codes "users")
            (user_row (codes "1") (codes "Ann"))
            (some (codes "id"))
            []
            []
            false)
choose-IsHarmless_example =
    choose-IsHarmless users (user_key ∷ []) stamp two_rows 0 menu_state (λ v. []) (codes "name")
      (some name_column) (string (codes "Ann")) (some (codes "id")) (codes "name" ∷ [])
      build_insert_query (user_row (codes "1") (codes "Ann")) [] []

abbrev grid : GridState
grid = record {
  stores = record { entries = []; tabs = initial; selected = [] };
  rows = two_rows;
  anchor = none;
  details_row_index = none;
  details_row = none;
  editing_cell = none;
  edit_dialog_cell = none;
}

abbrev events : List GridEvent
events =
    start_edit 0 (codes "name")
    ∷ checkbox_click 0 false
    ∷ checkbox_click 1 true
    ∷ start_edit 1 (codes "name")
    ∷ []

grid_steps-IsHeld_example :
    IsHeld users (is_multi_select (grid_steps users events grid)) (grid_steps users events grid)
grid_steps-IsHeld_example =
    grid_steps-IsHeld users events grid
      (record { cell_held = refl; dialog_held = refl; details_held = refl })
