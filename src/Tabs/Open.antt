-- ===== src/Tabs/Open.antt =====
-- The functions that open tabs (frontend/src/workbench/tabs/controllers).
use vaultsql.Prelude.{
  Bool, false, List, [], ◌∷◌, ◌++◌, Option, none, some, Text, codes, concat, or_else, if◌then◌else◌,
  ℕ, decimal,
}
use vaultsql.Database.Filters.{FilterInput}
use vaultsql.Tabs.Store.{
  browse_data, worksheet, new_table, routine, RoutineType, function, procedure, ConfigKind,
  table_config, worksheet_config, new_table_config, routine_config, TabConfig, TabDescriptor,
  TabsState, is_open, add_tab, add_preview_tab, select_tab, reset_tab_filters, WorkbenchTabType,
}

abbrev plain_config : ConfigKind → TabConfig
plain_config kind = record { kind = kind; filters = none; filter_mode = none }

abbrev pub new_tab : Text → Text → WorkbenchTabType → TabConfig → TabDescriptor
new_tab tab_id title tab_type config = record {
  id = tab_id;
  title = title;
  tab_type = tab_type;
  is_preview = false;
  config = config;
}

-- `preview ? addPreviewTab(tab) : addTab(tab)`
abbrev pub add : Bool → TabDescriptor → TabsState → TabsState
add preview tab s = if preview then add_preview_tab tab s else add_tab tab s

-- `initialContent ? { initialContent } : {}`
abbrev pub given : Option Text → Option Text
given (some (c ∷ s)) = some (c ∷ s)
given _ = none

-- The clock's reading is an argument; the stored content is dropped if it is empty.
unfoldable pub open_draft_sql_tab : ℕ → Option Text → TabsState → TabsState
open_draft_sql_tab now initial_content s =
    add_tab
      (new_tab (codes "draft:" ++ decimal now) (codes "SQL") worksheet
        (plain_config (worksheet_config none (given initial_content))))
      s

unfoldable pub open_new_table_tab : Text → TabsState → TabsState
open_new_table_tab schema s =
    let tab_id = codes "new-table:" ++ schema in
    if is_open tab_id s.tabs
    then select_tab (some tab_id) s
    else add_tab
        (new_tab tab_id (codes "New Table") new_table (plain_config (new_table_config schema))) s

abbrev pub routine_text : RoutineType → Text
routine_text function = codes "function"
routine_text procedure = codes "procedure"

unfoldable pub open_routine_tab : Text → Text → RoutineType → Bool → TabsState → TabsState
open_routine_tab schema object_name object_type preview s =
    add preview
      (new_tab
        (concat (
          codes "routine:"
          ∷ schema
          ∷ codes "."
          ∷ object_name
          ∷ codes ":"
          ∷ routine_text object_type
          ∷ []))
        object_name routine (plain_config (routine_config schema object_name object_type)))
      s

unfoldable pub open_table_tab :
    Text → Text → Option Bool → Option (List FilterInput) → Bool → TabsState → TabsState
open_table_tab schema table is_view filters preview s =
    let tab_id = concat (codes "table:" ∷ schema ∷ codes "." ∷ table ∷ []) in
    if is_open tab_id s.tabs
    then reset_tab_filters tab_id (or_else filters []) s
    else add preview
        (new_tab tab_id table browse_data (record {
          kind = table_config schema table is_view;
          filters = filters;
          filter_mode = none;
        }))
        s

unfoldable pub open_worksheet_tab : Text → Text → Bool → TabsState → TabsState
open_worksheet_tab worksheet_id worksheet_name preview s =
    add preview
      (new_tab (codes "worksheet:" ++ worksheet_id) worksheet_name worksheet
        (plain_config (worksheet_config (some worksheet_id) none)))
      s
