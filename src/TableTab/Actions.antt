-- ===== src/TableTab/Actions.antt =====
-- The actions of frontend/src/workbench/tabs/TableTab/state/useTableTabStore.ts.
use vaultsql.Prelude.{
  ℕ, zero, suc, min, max, true, false, not, List, [], ◌∷◌, ◌++◌, Option, none, some, Text, ℤ, pos,
  negsuc, has, keep, ◌==◌, if◌then◌else◌,
}
use vaultsql.Database.Filters.{Filter, FilterMode, get_default_operator}
use vaultsql.Database.Columns.{ColumnInfo}
use vaultsql.TableTab.State.{
  loading, success, error, row, fk_reference, Row, QueryResponse, FkReference, TableInfo,
  LimitOffset, TableTabState, get_rows, get_column_names, no_details,
}

pub data Action : Type 0 where
  set_data_loading : Action
  set_data_success : QueryResponse → Action
  set_data_error : Text → Action
  update_streaming_data : QueryResponse → Action
  set_filters : List Filter → Action
  set_raw_sql_where : Option Text → Action
  add_filter : Text → List ColumnInfo → Action
  clear_filters : Action
  set_filter_mode : FilterMode → Action
  set_details_row : Option Row → Option Text → Option TableInfo → Action
  clear_details_row : Action
  set_fk_loading : FkReference → Action
  set_fk_reference : FkReference → Option Row → Action
  set_fk_error : Text → Action
  clear_fk_reference : Action
  toggle_details_pane : Action
  set_selected_row_indices : List ℕ → Action
  toggle_row_selection : ℕ → Action
  select_all_rows : ℕ → Action
  clear_selection : Action
  set_total_row_count : Option ℤ → Action
  set_page : ℤ → Action
  set_page_size : ℤ → Action
  set_limit_offset : Option LimitOffset → Action
  reset_pagination : Action

-- `newSet.has(index) ? newSet.delete(index) : newSet.add(index)`
unfoldable pub toggle : ℕ → List ℕ → List ℕ
toggle index indices =
    if has index indices then keep (λ i. not (i == index)) indices else indices ++ index ∷ []

-- `Array.from({ length }, (_, i) => i)`
unfoldable pub count_up : ℕ → ℕ → List ℕ
count_up i zero = []
count_up i (suc n) = i ∷ count_up (suc i) n

-- `Math.max(0, page)`
unfoldable pub page_number : ℤ → ℕ
page_number (pos n) = n
page_number (negsuc n) = 0

-- `Math.max(1, Math.min(500, size))`
unfoldable pub clamp_page_size : ℤ → ℕ
clamp_page_size (pos n) = max 1 (min 500 n)
clamp_page_size (negsuc n) = 1

-- A filter on the first column, with the operator that its category starts with.
unfoldable pub with_new_filter : Text → List ColumnInfo → List Filter → List Filter
with_new_filter new_id [] filters = filters
with_new_filter new_id (column ∷ columns) filters =
    filters
    ++ record {
      input = record {
        column = column.name;
        operator = get_default_operator column.category;
        value = [];
      };
      id = new_id;
    }
      ∷ []

unfoldable pub apply : Action → TableTabState → TableTabState
unfolding toggle page_number clamp_page_size with_new_filter
apply set_data_loading s = record s {
  fetched = record s.fetched { status = loading; message = none; result = none };
}
apply (set_data_success result) s =
    let rows = get_rows (some result) in
    record s {
      fetched = record {
        status = success;
        result = some result;
        message = none;
        rows = rows;
        column_names = get_column_names (some result) rows;
      };
      selected = [];
    }
apply (set_data_error message) s = record s {
  fetched = record s.fetched { status = error; message = some message; result = none };
}
apply (update_streaming_data result) s =
    let rows = get_rows (some result) in
    record s {
      fetched = record s.fetched {
        result = some result;
        rows = rows;
        column_names = get_column_names (some result) rows;
      };
    }
apply (set_filters filters) s = record s { filtering = record s.filtering { filters = filters } }
apply (set_raw_sql_where sql) s = record s {
  filtering = record s.filtering { raw_sql_where = sql };
}
apply (add_filter new_id columns) s = record s {
  filtering = record s.filtering { filters = with_new_filter new_id columns s.filtering.filters };
}
apply clear_filters s = record s {
  filtering = record s.filtering { filters = []; raw_sql_where = none };
}
apply (set_filter_mode mode) s = record s { filtering = record s.filtering { filter_mode = mode } }
apply (set_details_row details_row primary_key table_info) s = record s {
  details = record s.details {
    details_row = details_row;
    details_mode = row;
    reference = none;
    details_loading = false;
    details_error = none;
    primary_key = primary_key;
    table_info = table_info;
  };
}
apply clear_details_row s = record s { details = no_details s.details.is_details_pane_open }
apply (set_fk_loading ref) s = record s {
  details = record s.details {
    details_mode = fk_reference;
    reference = some ref;
    details_row = none;
    details_loading = true;
    details_error = none;
  };
}
apply (set_fk_reference ref details_row) s = record s {
  details = record s.details {
    details_mode = fk_reference;
    reference = some ref;
    details_row = details_row;
    details_loading = false;
    details_error = none;
  };
}
apply (set_fk_error message) s = record s {
  details = record s.details { details_loading = false; details_error = some message };
}
apply clear_fk_reference s = record s { details = no_details s.details.is_details_pane_open }
apply toggle_details_pane s = record s {
  details = record s.details { is_details_pane_open = not s.details.is_details_pane_open };
}
apply (set_selected_row_indices indices) s = record s { selected = indices }
apply (toggle_row_selection index) s = record s { selected = toggle index s.selected }
apply (select_all_rows row_count) s = record s { selected = count_up 0 row_count }
apply clear_selection s = record s { selected = [] }
apply (set_total_row_count count) s = record s {
  pagination = record s.pagination { total_row_count = count };
}
apply (set_page page) s = record s {
  pagination = record s.pagination { current_page = page_number page; limit_offset = none };
}
apply (set_page_size size) s = record s {
  pagination = record s.pagination {
    page_size = clamp_page_size size;
    current_page = 0;
    limit_offset = none;
  };
}
apply (set_limit_offset limit_offset) s = record s {
  pagination = record s.pagination { limit_offset = limit_offset; current_page = 0 };
}
apply reset_pagination s = record s {
  pagination = record {
    current_page = 0;
    page_size = 200;
    limit_offset = none;
    total_row_count = none;
  };
}

unfoldable pub run : List Action → TableTabState → TableTabState
unfolding apply
run [] s = s
run (a ∷ actions) s = run actions (apply a s)
