-- ===== src/TableTab/State.antt =====
-- The state of frontend/src/workbench/tabs/TableTab/state/useTableTabStore.ts, by the parts that it
-- is declared in. Page numbers, sizes and limits are whole numbers.
use vaultsql.Prelude.{ℕ, Bool, true, false, List, [], ◌∷◌, map, Option, none, some, Text, ℤ}
use vaultsql.Database.Filters.{Filter, FilterMode}
use vaultsql.Database.Mutations.{Value}

pub data TabStatus : Type 0 where
  idle loading success error : TabStatus

pub data DetailsMode : Type 0 where
  row fk_reference : DetailsMode

-- A row maps its column names, in order, to values.
abbrev pub Row : Type 0
Row = List (Text × Value)

-- What the tab reads of a response: the rows, if its result is an array, and the names of its
-- columns, if it lists any.
pub record QueryResponse : Type 0 where
  pub result : Option (List Row)
  pub columns : Option (List Text)

pub record FkReference : Type 0 where
  pub schema : Text
  pub table : Text
  pub column : Text
  pub value : Value

pub record TableInfo : Type 0 where
  pub schema : Text
  pub table : Text

pub record LimitOffset : Type 0 where
  pub limit : ℤ
  pub offset : ℤ

pub record DataState : Type 0 where
  pub status : TabStatus
  pub result : Option QueryResponse
  pub message : Option Text
  pub rows : List Row
  pub column_names : List Text

pub record PaginationState : Type 0 where
  pub total_row_count : Option ℤ
  pub page_size : ℕ
  pub current_page : ℕ
  pub limit_offset : Option LimitOffset

pub record FilterState : Type 0 where
  pub filters : List Filter
  pub raw_sql_where : Option Text
  pub filter_mode : FilterMode

pub record DetailsState : Type 0 where
  pub details_row : Option Row
  pub details_mode : DetailsMode
  pub reference : Option FkReference
  pub details_loading : Bool
  pub details_error : Option Text
  pub primary_key : Option Text
  pub table_info : Option TableInfo
  pub is_details_pane_open : Bool

-- A JavaScript set of row numbers, in the order in which they were added.
pub record TableTabState : Type 0 where
  pub fetched : DataState
  pub filtering : FilterState
  pub details : DetailsState
  pub selected : List ℕ
  pub pagination : PaginationState

abbrev pub rows_of : Option (List Row) → List Row
rows_of none = []
rows_of (some rows) = rows

unfoldable pub get_rows : Option QueryResponse → List Row
get_rows none = []
get_rows (some r) = rows_of r.result

abbrev pub first_keys : List Row → List Text
first_keys [] = []
first_keys (r ∷ rs) = map (λ cell. cell.0) r

abbrev pub names_or_keys : Option (List Text) → List Row → List Text
names_or_keys none rows = first_keys rows
names_or_keys (some []) rows = first_keys rows
names_or_keys (some (c ∷ cs)) rows = c ∷ cs

unfoldable pub get_column_names : Option QueryResponse → List Row → List Text
get_column_names none rows = first_keys rows
get_column_names (some r) rows = names_or_keys r.columns rows

abbrev pub no_details : Bool → DetailsState
no_details open_pane = record {
  details_row = none;
  details_mode = row;
  reference = none;
  details_loading = false;
  details_error = none;
  primary_key = none;
  table_info = none;
  is_details_pane_open = open_pane;
}

unfoldable pub create_table_tab_store : List Filter → FilterMode → TableTabState
create_table_tab_store filters filter_mode = record {
  fetched = record { status = idle; result = none; message = none; rows = []; column_names = [] };
  filtering = record { filters = filters; raw_sql_where = none; filter_mode = filter_mode };
  details = no_details true;
  selected = [];
  pagination = record {
    total_row_count = none;
    page_size = 200;
    current_page = 0;
    limit_offset = none;
  };
}
