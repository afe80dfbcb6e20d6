-- ===== src/TableTab/Invariant.antt =====
-- What holds of a table's tab after any sequence of actions.
use vaultsql.Prelude.{◌≤◌, true, List, [], ◌∷◌, none, ◌≡◌, ◌≢◌, arith, ℤ, pos, negsuc}
use vaultsql.Database.Filters.{Filter, FilterMode}
use vaultsql.TableTab.State.{
  loading, success, error, row, fk_reference, DataState, DetailsState, PaginationState,
  TableTabState, get_rows, get_column_names, create_table_tab_store,
}
use vaultsql.TableTab.Actions.{Action, apply, run, clamp_page_size}

-- The status agrees with the result and the message, and the rows shown are the result's.
pub record IsDataValid (s : DataState) : Type 0 where
  pub loading_clean : s.status ≡ loading → s.message ≡ none
  pub success_clean : s.status ≡ success → (s.message ≡ none) × (s.result ≢ none)
  pub error_told : s.status ≡ error → s.message ≢ none
  pub rows_shown : s.result ≢ none → s.rows ≡ get_rows s.result
  pub names_shown : s.result ≢ none → s.column_names ≡ get_column_names s.result s.rows

-- A reference is there exactly in its mode; while it is loaded neither a row nor an error is shown.
pub record IsDetailsValid (s : DetailsState) : Type 0 where
  pub row_alone : s.details_mode ≡ row → (s.reference ≡ none)
  pub reference_there : s.details_mode ≡ fk_reference → s.reference ≢ none
  pub loading_reference : s.details_loading ≡ true → s.details_mode ≡ fk_reference
  pub loading_bare : s.details_loading ≡ true → (s.details_row ≡ none) × (s.details_error ≡ none)

-- A page holds 1 to 500 rows, and a manual limit is only there on the first page.
pub record IsPaginationValid (s : PaginationState) : Type 0 where
  pub page_size_low : 1 ≤ s.page_size
  pub page_size_high : s.page_size ≤ 500
  pub manual_first : s.limit_offset ≢ none → s.current_page ≡ 0

pub record IsValid (s : TableTabState) : Type 0 where
  pub data_valid : IsDataValid s.fetched
  pub details_valid : IsDetailsValid s.details
  pub pagination_valid : IsPaginationValid s.pagination

clamp_page_size_bounds : (n : ℤ) → (1 ≤ clamp_page_size n) × (clamp_page_size n ≤ 500)
unfolding clamp_page_size
clamp_page_size_bounds (pos n) = omega arith
clamp_page_size_bounds (negsuc n) = omega arith

apply-IsDataValid :
    (a : Action) (s : TableTabState) → IsDataValid s.fetched → IsDataValid (apply a s).fetched
unfolding apply
apply-IsDataValid Action.set_data_loading s v = ground arith
apply-IsDataValid a s v = ground arith

apply-IsDetailsValid :
    (a : Action) (s : TableTabState) → IsDetailsValid s.details → IsDetailsValid (apply a s).details
unfolding apply
apply-IsDetailsValid Action.set_data_loading s v = ground arith
apply-IsDetailsValid a s v = ground arith

apply-IsPaginationValid :
    (a : Action) (s : TableTabState)
    → IsPaginationValid s.pagination
    → IsPaginationValid (apply a s).pagination
unfolding apply
apply-IsPaginationValid (Action.set_page_size n) s v =
    let bounds = clamp_page_size_bounds n in ground arith
apply-IsPaginationValid a s v = ground arith

apply-IsValid : (a : Action) (s : TableTabState) → IsValid s → IsValid (apply a s)
apply-IsValid a s v = record {
  data_valid = apply-IsDataValid a s v.data_valid;
  details_valid = apply-IsDetailsValid a s v.details_valid;
  pagination_valid = apply-IsPaginationValid a s v.pagination_valid;
}

create_table_tab_store-IsValid :
    (filters : List Filter) (mode : FilterMode) → IsValid (create_table_tab_store filters mode)
unfolding create_table_tab_store
create_table_tab_store-IsValid filters mode = record {
  data_valid = ground arith;
  details_valid = ground arith;
  pagination_valid = ground arith;
}

-- A run of actions from a valid state ends in a valid state.
run-IsValid_from : (actions : List Action) (s : TableTabState) → IsValid s → IsValid (run actions s)
unfolding run
run-IsValid_from [] s v = v
run-IsValid_from (a ∷ actions) s v = run-IsValid_from actions (apply a s) (apply-IsValid a s v)

-- After any sequence of actions on a new tab, a status of loading has no error, a status of success
-- has a result and no error, a status of error has its message, the rows and the column names shown
-- are those of the result that is there, a foreign key's reference is there exactly in its mode,
-- nothing is shown of a row that is still loading, a page holds 1 to 500 rows, and a manual limit is
-- only set on the first page.
pub run-IsValid :
    (filters : List Filter) (mode : FilterMode) (actions : List Action)
    → IsValid (run actions (create_table_tab_store filters mode))
run-IsValid filters mode actions =
    run-IsValid_from actions _ (create_table_tab_store-IsValid filters mode)
