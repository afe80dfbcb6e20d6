-- ===== src/Examples/FetchRuns.antt =====
-- Two requests of a tab, of which the first still streams when the second has started.
use vaultsql.Prelude.{
  true, false, List, [], ◌∷◌, is_empty, none, some, ◌≡◌, refl, codes, or_else, if◌then◌else◌,
}
use vaultsql.Database.Filters.{all_of}
use vaultsql.Backend.Stream.{on_row, on_complete, read_stream, read_lines, read_line, handle_parsed}
use vaultsql.Backend.Remote.{body, stream_remote_query}
use vaultsql.Backend.Told.{told_rows}
use vaultsql.TableTab.State.{success, error, create_table_tab_store}
use vaultsql.TableTab.Actions.{toggle_details_pane}
use vaultsql.TableTab.Fetching.{
  Fetching, FetchEvent, told, fired, acted, counted, start_fetch, fetch_step, run_events,
}
use vaultsql.TableTab.Fetched.{calls_of, IsFetching, IsPending}
use vaultsql.TableTab.Streamed.{run_events-start_fetch}
use vaultsql.TableTab.Answered.{answer_event, answered_lem}
use vaultsql.Examples.BackendRuns.{parse_line, chunks}

abbrev second_tab : Fetching
second_tab = record {
  store = create_table_tab_store [] all_of;
  request_id = 1;
  rows = [] ∷ [];
  buffer = [];
  columns = [];
  timer = some 1;
}

-- Rows of the first request come between.
abbrev mixed_events : List FetchEvent
mixed_events =
    told 2 (on_row [])
    ∷ told 1 (on_row [])
    ∷ fired
    ∷ acted toggle_details_pane
    ∷ counted none
    ∷ told 2 (on_row [])
    ∷ told 1 (on_complete 2 false)
    ∷ told 2 (on_complete 2 false)
    ∷ []

run_events-start_fetch_example :
    let t = run_events mixed_events (start_fetch false second_tab) in
    IsFetching 2 (calls_of 2 mixed_events) t
    × IsPending 2 t
    × IsFetching 2 (calls_of 2 mixed_events) (fetch_step fired t)
    × (is_empty (fetch_step fired t).buffer ≡ true)
run_events-start_fetch_example = run_events-start_fetch false mixed_events second_tab refl

streamed_calls : calls_of 2 mixed_events ≡ (stream_remote_query parse_line (body chunks)).1
unfolding stream_remote_query read_stream read_lines read_line handle_parsed
streamed_calls = refl

answered_lem_example :
    let (r, calls) = stream_remote_query parse_line (body chunks) in
    let t = run_events mixed_events (start_fetch false second_tab) in
    let u = fetch_step (answer_event 2 r) t in
    (u.store.fetched.status ≡ (if r.success then success else error))
    × (u.store.fetched.rows ≡ (if r.success then told_rows calls else t.store.fetched.rows))
    × (u.store.fetched.message
        ≡ (if r.success then none else some (or_else r.error (codes "Failed to load table data"))))
answered_lem_example =
    answered_lem parse_line (body chunks) false mixed_events second_tab refl streamed_calls
