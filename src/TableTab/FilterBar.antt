-- ===== src/TableTab/FilterBar.antt =====
-- frontend/src/workbench/tabs/TableTab/components/filters/useFilterToolbar.ts: the handlers of the
-- filters, over the store of the tab, the commands of useTableTabActions, and the tab bar.
use vaultsql.Prelude.{
  Bool, not, List, [], ◌∷◌, ◌++◌, map, keep, Option, none, some, Text, same, if◌then◌else◌,
}
use vaultsql.Database.Filters.{Filter, FilterInput, FilterMode, to_filter_inputs}
use vaultsql.Tabs.Store.{TabsState, pin_tab, update_tab_filter_mode}
use vaultsql.TableTab.State.{TableTabState}
use vaultsql.TableTab.Actions.{apply, set_filters, set_raw_sql_where, set_filter_mode}
use vaultsql.TableTab.Fetching.{
  Command, apply_filters, apply_raw_sql, clear_all, inputs_of, command,
}

-- The tab as it was last drawn.
pub record DrawnTab : Type 0 where
  pub tab_id : Text
  pub is_preview : Bool

pub record FilterBar : Type 0 where
  pub store : TableTabState
  pub tabs : TabsState

-- What fetchData is called with.
abbrev pub Fetched : Type 0
Fetched = List FilterInput × Option Text

-- A command of useTableTabActions pins a preview tab.
abbrev pub commanded : DrawnTab → Command → FilterBar → FilterBar × Fetched
commanded t c s =
    let (store, filters, raw_where) = command c s.store in
    (
      record { store = store; tabs = if t.is_preview then pin_tab t.tab_id s.tabs else s.tabs },
      (filters, raw_where),
    )

pub data FilterEvent : Type 0 where
  update_filter : Filter → FilterEvent
  remove_filter : Text → FilterEvent
  add_filter : Filter → FilterEvent
  clear_filters : FilterEvent
  run_raw_sql : Text → FilterEvent
  remove_raw_sql : FilterEvent
  change_mode : FilterMode → FilterEvent

abbrev pub replaced : Filter → List Filter → List Filter
replaced updated filters = map (λ f. if same f.id updated.id then updated else f) filters

-- The new filters are stored, and applied.
abbrev pub with_filters : DrawnTab → List Filter → FilterBar → FilterBar × Fetched
with_filters t filters s =
    commanded t (apply_filters (to_filter_inputs filters))
      (record s { store = apply (set_filters filters) s.store })

unfoldable pub handle_filter_event : DrawnTab → FilterEvent → FilterBar → FilterBar × Fetched
unfolding apply command
handle_filter_event t (update_filter updated) s =
    with_filters t (replaced updated s.store.filtering.filters) s
handle_filter_event t (remove_filter id) s =
    with_filters t (keep (λ f. not (same f.id id)) s.store.filtering.filters) s
handle_filter_event t (add_filter filter) s =
    with_filters t (s.store.filtering.filters ++ filter ∷ []) s
handle_filter_event t clear_filters s = commanded t clear_all s
handle_filter_event t (run_raw_sql sql) s =
    commanded t (apply_raw_sql sql)
      (record s { store = apply (set_raw_sql_where (some sql)) s.store })
handle_filter_event t remove_raw_sql s =
    commanded t (apply_filters (inputs_of s.store))
      (record s { store = apply (set_raw_sql_where none) s.store })
handle_filter_event t (change_mode mode) s =
    commanded t (apply_filters (inputs_of s.store)) (record {
      store = apply (set_filter_mode mode) s.store;
      tabs = update_tab_filter_mode t.tab_id mode s.tabs;
    })
