-- ===== src/Editing/Menu.antt =====
-- The context menus of the grid (frontend/src/workbench/tabs/TableTab/components/grid):
-- contextMenuBuilders.ts, with applyFilter and handleColumnAction of TableDataGrid.tsx, and
-- formatClipboardValue and formatFilterValue of utils.ts. JSON.stringify of an object is a parameter.
use vaultsql.Prelude.{
  ℕ, Bool, true, false, not, ◌&&◌, ◌||◌, List, [], ◌∷◌, ◌++◌, Option, none, some, Text, codes, same,
  any, find, if◌then◌else◌,
}
use vaultsql.Database.Mutations.{
  Value, null, undefined, other, MutationColumnValue, PrimaryKeyValue, InsertParams, MutationResult,
}
use vaultsql.Database.Columns.{ColumnInfo, ForeignKeyInfo}
use vaultsql.Database.Filters.{FilterInput, eq, is_null, is_not_null, hydrate_filter}
use vaultsql.Tabs.Open.{open_table_tab}
use vaultsql.TableTab.FilterBar.{DrawnTab, FilterBar, Fetched, with_filters}
use vaultsql.TableTab.State.{Row, TableTabState}
use vaultsql.Queue.Entries.{insert_row, delete_row}
use vaultsql.Editing.Pending.{to_string, is_nullish, cell}
use vaultsql.Editing.Handlers.{EditedTable, Stamp, Stores, handle_cell_edit, queue_with_pin}

-- What `onSelect` of an item does.
pub data Effect : Type 0 where
  open_reference : Text → Effect
  copy : Text → Effect
  filter : FilterInput → Effect
  edit : Text → Bool → Bool → Effect
  edit_dialog : ColumnInfo → Effect
  duplicate : List MutationColumnValue → Effect
  delete : PrimaryKeyValue → Effect
  nothing : Effect

pub record GridContextMenuItem : Type 0 where
  pub id : Text
  pub label : Text
  pub disabled : Bool
  pub danger : Bool
  pub on_select : Effect

abbrev pub item : Text → Text → Bool → Effect → GridContextMenuItem
item id label disabled on_select = record {
  id = id;
  label = label;
  disabled = disabled;
  danger = false;
  on_select = on_select;
}

-- `${prefix}:${column.id}`
abbrev pub item_id : Text → Text → Text
item_id prefix column = prefix ++ (codes ":" ++ column)

-- Pushed only if the test holds.
abbrev pub pushed_if : Bool → GridContextMenuItem → List GridContextMenuItem
pushed_if true i = i ∷ []
pushed_if false i = []

abbrev there : Option ColumnInfo → Bool
there none = false
there (some info) = true

abbrev pub has_default : Option ColumnInfo → Bool
has_default none = false
has_default (some info) = info.has_server_default || has_text info.default_value
  where
    has_text : Option Text → Bool
    has_text none = false
    has_text (some t) = true

abbrev pub can_edit_cell : Bool → Option Text → Option ColumnInfo → Bool
can_edit_cell can_update none info = false
can_edit_cell can_update (some pk) none = false
can_edit_cell can_update (some pk) (some info) = can_update && not info.is_generated

module _ (stringify : Value → Text) where
  abbrev pub format_clipboard_value : Value → Text
  format_clipboard_value null = codes "NULL"
  format_clipboard_value undefined = codes "NULL"
  format_clipboard_value (other s) = stringify (other s)
  format_clipboard_value v = to_string v

  abbrev pub format_filter_value : Value → Text
  format_filter_value null = []
  format_filter_value undefined = []
  format_filter_value (other s) = stringify (other s)
  format_filter_value v = to_string v

  abbrev value_filter : Text → Value → FilterInput
  value_filter column v =
      if is_nullish v
      then record { column = column; operator = is_null; value = [] }
      else record { column = column; operator = eq; value = format_filter_value v }

  abbrev null_filter : Text → Value → FilterInput
  null_filter column v = record {
    column = column;
    operator = if is_nullish v then is_not_null else is_null;
    value = [];
  }

  -- The items for a cell of a table that has a primary key and knows the column.
  abbrev pub edit_items : Text → Option ColumnInfo → Value → Bool → List GridContextMenuItem
  edit_items column none v can_edit = []
  edit_items column (some info) v can_edit =
      pushed_if info.nullable (
        item (item_id (codes "set-null") column) (codes "Set NULL") (not can_edit || is_nullish v)
          (edit column true false))
      ++ (pushed_if (has_default (some info)) (
            item (item_id (codes "set-default") column) (codes "Set default") (not can_edit)
              (edit column false true))
          ++ item (item_id (codes "edit-modal") column) (codes "Edit " ++ column) (not can_edit)
              (edit_dialog info)
            ∷ [])

  unfoldable pub build_cell_menu_items :
      Text → Option ColumnInfo → Value → Option Text → List Text → Bool → List GridContextMenuItem
  build_cell_menu_items column info v pk actionable can_update =
      let nullish = is_nullish v in
      let can_edit = can_edit_cell can_update pk info in
      pushed_if (any (same column) actionable) (
        item (item_id (codes "open-reference") column) (codes "Open referenced row") nullish
          (open_reference column))
      ++ (item (item_id (codes "copy-cell") column) (codes "Copy cell value") false
            (copy (format_clipboard_value v))
          ∷ item (item_id (codes "filter-eq") column)
              (if nullish then codes "Filter: IS NULL" else codes "Filter: = value") false
              (filter (value_filter column v))
          ∷ item (item_id (codes "filter-null") column)
              (if nullish then codes "Filter: IS NOT NULL" else codes "Filter: IS NULL") false
              (filter (null_filter column v))
          ∷ elim pk [ none ↦ [] | some k ↦ edit_items column info v can_edit ])

-- The key of a row that has one.
abbrev pub key_of : Option Text → Row → Option PrimaryKeyValue
key_of none row = none
key_of (some pk) row =
    if is_nullish (cell row pk) then none else some (record { column = pk; value = cell row pk })

abbrev delete_item : Bool → Option PrimaryKeyValue → GridContextMenuItem
delete_item can_update none = record {
  id = codes "delete-row";
  label = codes "Delete row";
  disabled = true;
  danger = true;
  on_select = nothing;
}
delete_item can_update (some key) = record {
  id = codes "delete-row";
  label = codes "Delete row";
  disabled = not can_update;
  danger = true;
  on_select = delete key;
}

-- `json` is the text that is copied of the row with its edits, `values` what buildRowMutationValues
-- makes of the row.
unfoldable pub build_row_menu_items :
    (InsertParams → MutationResult)
    → Text
    → Text
    → Row
    → Option Text
    → Text
    → List MutationColumnValue
    → Bool
    → List GridContextMenuItem
build_row_menu_items build_insert_query schema table row pk json values can_update =
    let insertion =
      build_insert_query (record { schema = schema; table = table; values = values }) in
    item (codes "copy-row-json") (codes "Copy row as JSON") false (copy json)
    ∷ item (codes "copy-row-insert") (codes "Copy row as INSERT") false (copy insertion.sql)
    ∷ item (codes "duplicate-row") (codes "Duplicate row") (not can_update) (duplicate values)
    ∷ delete_item can_update (key_of pk row)
    ∷ []

-- What the items change: the stores of the grid, and the store of the tab, with its own field for the
-- selection. Each fetch is added with
-- what it is called with.
pub record MenuState : Type 0 where
  pub stores : Stores
  pub store : TableTabState
  pub fetched : List Fetched

-- The tab as the filter bar draws it.
abbrev drawn : EditedTable → DrawnTab
drawn t = record { tab_id = t.tab_id; is_preview = t.is_preview }

abbrev of_bar : FilterBar × Fetched → MenuState → MenuState
of_bar (bar, fetched) s = record {
  stores = record s.stores { tabs = bar.tabs };
  store = bar.store;
  fetched = s.fetched ++ fetched ∷ [];
}

-- The new filter has a new id. The handler then calls `toggleFilters`, which the store does not have.
unfoldable pub apply_filter : EditedTable → Text → FilterInput → MenuState → MenuState
apply_filter t uuid input s =
    let filters = s.store.filtering.filters ++ hydrate_filter uuid input ∷ [] in
    of_bar (with_filters (drawn t) filters (record { store = s.store; tabs = s.stores.tabs })) s

abbrev reference_filter : ForeignKeyInfo → Value → FilterInput
reference_filter fk value = record {
  column = fk.ref_column;
  operator = eq;
  value = to_string value;
}

abbrev pub opened : ForeignKeyInfo → Value → MenuState → MenuState
opened fk value s =
    let tabs =
      open_table_tab fk.ref_schema fk.ref_table none (some (reference_filter fk value ∷ [])) false
        s.stores.tabs in
    record s { stores = record s.stores { tabs = tabs } }

unfoldable pub handle_column_action : List ForeignKeyInfo → Text → Row → MenuState → MenuState
unfolding open_table_tab
handle_column_action foreign_keys column row s =
    elim (find (λ f. same f.column column) foreign_keys) [
      | none ↦ s
      | some fk ↦ if is_nullish (cell row column) then s else opened fk (cell row column) s
    ]

abbrev with_stores : (Stores → Stores) → MenuState → MenuState
with_stores f s = record s { stores = f s.stores }

-- What an item that is chosen does; a disabled one does nothing. The clipboard and the dialog are
-- not among the stores. The stamp has a new id and the time.
unfoldable pub choose :
    EditedTable
    → List ForeignKeyInfo
    → Stamp
    → List Row
    → ℕ
    → Row
    → GridContextMenuItem
    → MenuState
    → MenuState
unfolding handle_cell_edit queue_with_pin apply_filter handle_column_action
choose t foreign_keys stamp rows index row i s = if i.disabled then s else elim i.on_select [
  | open_reference column ↦ handle_column_action foreign_keys column row s
  | filter input ↦ apply_filter t stamp.0 input s
  | edit column to_null to_default ↦
      with_stores (handle_cell_edit t stamp rows index column null to_null to_default) s
  | duplicate values ↦ with_stores (queue_with_pin t stamp (insert_row values)) s
  | delete key ↦ with_stores (queue_with_pin t stamp (delete_row key)) s
  | _ ↦ s
]
