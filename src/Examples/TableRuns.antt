-- ===== src/Examples/TableRuns.antt =====
-- A table's tab after concrete actions.
use vaultsql.Prelude.{List, [], ◌∷◌, none, some, ◌≡◌, false, codes, negsuc, pos, arith, true, refl}
use vaultsql.Database.Filters.{all_of}
use vaultsql.Database.Mutations.{string}
use vaultsql.TableTab.State.{QueryResponse, TableTabState, FkReference, create_table_tab_store}
use vaultsql.TableTab.Actions.{
  Action, set_data_loading, set_data_success, set_fk_loading, set_fk_error, set_page, set_page_size,
  set_limit_offset, set_total_row_count, toggle_row_selection, apply, run,
}
use vaultsql.TableTab.Invariant.{IsValid, run-IsValid}
use vaultsql.Tabs.Store.{initial, add_preview_tab}
use vaultsql.Tabs.Open.{open_table_tab}
use vaultsql.TableTab.Fetching.{inputs_of}
use vaultsql.TableTab.FilterBar.{DrawnTab, FilterBar, run_raw_sql, handle_filter_event}
use vaultsql.TableTab.Filtered.{previewed, handle_filter_event_lem}
use vaultsql.TableTab.Paging.{prev_page, next_page, jump_to, apply_limit}
use vaultsql.TableTab.Pages.{IsTurned, paging_steps, paging_steps-IsTurned}

abbrev answer : QueryResponse
answer = record { result = some (((codes "id", string (codes "1")) ∷ []) ∷ []); columns = none }

abbrev reference : FkReference
reference = record {
  schema = codes "public";
  table = codes "teams";
  column = codes "id";
  value = string (codes "1");
}

abbrev actions : List Action
actions =
    set_data_loading
    ∷ set_data_success answer
    ∷ toggle_row_selection 3
    ∷ set_fk_loading reference
    ∷ set_fk_error (codes "gone")
    ∷ set_page (negsuc 4)
    ∷ set_page_size (pos 100000)
    ∷ set_limit_offset (some (record { limit = pos 10; offset = pos 20 }))
    ∷ []

abbrev new_tab_state : TableTabState
new_tab_state = create_table_tab_store [] all_of

run-IsValid_example : IsValid (run actions new_tab_state)
run-IsValid_example = run-IsValid [] all_of actions

abbrev counted : TableTabState
counted = apply (set_total_row_count (some (pos 450))) (create_table_tab_store [] all_of)

counted-IsTurned : IsTurned counted
unfolding apply create_table_tab_store
counted-IsTurned = record {
  size_low = omega arith;
  size_high = omega arith;
  has_row = omega arith;
  limited = tt;
}

paging_steps-IsTurned_example : IsTurned (
    paging_steps
      (next_page 200
        ∷ jump_to (some (pos 9))
        ∷ prev_page
        ∷ apply_limit (some (pos 900)) (some (pos 3))
        ∷ [])
      counted)
paging_steps-IsTurned_example =
    paging_steps-IsTurned
      (next_page 200
        ∷ jump_to (some (pos 9))
        ∷ prev_page
        ∷ apply_limit (some (pos 900)) (some (pos 3))
        ∷ [])
      counted counted-IsTurned

abbrev filter_bar : FilterBar
filter_bar = record {
  store = counted;
  tabs = open_table_tab (codes "public") (codes "users") none none true initial;
}

abbrev drawn : DrawnTab
drawn = record { tab_id = codes "table:public.users"; is_preview = true }

handle_filter_event_lem_example :
    let (s', fetched) = handle_filter_event drawn (run_raw_sql (codes "id > 3")) filter_bar in
    (fetched ≡ (inputs_of s'.store, s'.store.filtering.raw_sql_where))
    × (s'.store.pagination ≡ counted.pagination)
    × (previewed drawn.tab_id s'.tabs.tabs ≡ false)
unfolding open_table_tab add_preview_tab
handle_filter_event_lem_example =
    handle_filter_event_lem drawn (run_raw_sql (codes "id > 3")) filter_bar refl
