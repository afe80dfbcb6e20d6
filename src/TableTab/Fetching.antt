-- ===== src/TableTab/Fetching.antt =====
-- fetchData of frontend/src/workbench/tabs/TableTab/state/TableTabContext.tsx. Requests overlap, so
-- what happens is a list of events: each names the request whose code runs. The estimate of the
-- number of rows is an event of its own, `counted`, with the number that was read.
use vaultsql.Prelude.{
  ℕ, suc, ◌*◌, Bool, true, false, List, [], ◌∷◌, ◌++◌, is_empty, Option, none, some, Text, ℤ, pos,
  codes, or_else, first_of, ◌==◌, if◌then◌else◌,
}
use vaultsql.Database.Filters.{FilterInput, to_filter_inputs}
use vaultsql.Database.Queries.{TableQueryParams}
use vaultsql.Backend.Stream.{Call, on_columns, on_row, on_complete, on_error}
use vaultsql.TableTab.State.{Row, QueryResponse, LimitOffset, TableTabState}
use vaultsql.TableTab.Actions.{
  Action, set_data_loading, set_data_success, set_data_error, update_streaming_data,
  set_total_row_count, set_raw_sql_where, clear_filters, apply,
}

-- The store and the references of the provider; the timer is the request that will flush.
pub record Fetching : Type 0 where
  pub store : TableTabState
  pub request_id : ℕ
  pub rows : List Row
  pub buffer : List Row
  pub columns : List Text
  pub timer : Option ℕ

pub data FetchEvent : Type 0 where
  -- A request starts; the flag says that it has filters or raw SQL.
  started : Bool → FetchEvent
  counted : Option ℤ → FetchEvent
  -- The stream of a request calls a handler.
  told : ℕ → Call → FetchEvent
  -- The stream of a request ends, with a response or with something thrown.
  answered : ℕ → Bool → Option Text → QueryResponse → FetchEvent
  threw : ℕ → Option Text → FetchEvent
  fired : FetchEvent
  -- The user acts on the store.
  acted : Action → FetchEvent

abbrev pub stored : Action → Fetching → Fetching
stored a s = record s { store = apply a s.store }

abbrev pub streamed : Fetching → QueryResponse
streamed s = record { result = some s.rows; columns = some s.columns }

-- `updateStreamingData` with the rows and columns so far.
abbrev pub shown : Fetching → Fetching
shown s = stored (update_streaming_data (streamed s)) s

unfoldable pub flush_rows : ℕ → Fetching → Fetching
unfolding apply
flush_rows id s =
    if id == s.request_id
    then if is_empty s.buffer
      then s
      else shown (record s { rows = s.rows ++ s.buffer; buffer = [] })
    else s

unfoldable pub start_fetch : Bool → Fetching → Fetching
unfolding apply
start_fetch is_filtered s =
    let loading = apply set_data_loading s.store in
    record {
      store = if is_filtered then apply (set_total_row_count none) loading else loading;
      request_id = suc s.request_id;
      rows = [];
      buffer = [];
      columns = [];
      timer = none;
    }

-- A call of a handler of the current request.
unfoldable pub handle_call : ℕ → Call → Fetching → Fetching
unfolding apply flush_rows
handle_call id (on_columns columns) s = shown (record s { columns = columns })
handle_call id (on_row row) s = record s {
  buffer = s.buffer ++ row ∷ [];
  timer = first_of s.timer (some id);
}
handle_call id (on_complete count truncated) s = flush_rows id s
handle_call id (on_error message) s = stored (set_data_error message) s

unfoldable pub settle : ℕ → Bool → Option Text → QueryResponse → Fetching → Fetching
unfolding apply flush_rows
settle id true error response s = stored (set_data_success response) (flush_rows id s)
settle id false error response s =
    stored (set_data_error (or_else error (codes "Failed to load table data"))) s

abbrev pub timed : Option ℕ → Fetching → Fetching
timed none s = s
timed (some id) s = flush_rows id (record s { timer = none })

unfoldable pub fetch_step : FetchEvent → Fetching → Fetching
unfolding apply start_fetch handle_call settle flush_rows
fetch_step (started is_filtered) s = start_fetch is_filtered s
fetch_step (counted count) s = stored (set_total_row_count count) s
fetch_step (told id call) s = if id == s.request_id then handle_call id call s else s
fetch_step (answered id success error response) s =
    if id == s.request_id then settle id success error response s else s
fetch_step (threw id message) s =
    if id == s.request_id
    then stored (set_data_error (or_else message (codes "Unknown error"))) s
    else s
fetch_step fired s = timed s.timer s
fetch_step (acted a) s = stored a s

unfoldable pub run_events : List FetchEvent → Fetching → Fetching
unfolding fetch_step
run_events [] s = s
run_events (e ∷ es) s = run_events es (fetch_step e s)

abbrev pub limit_of : Option LimitOffset → ℕ → ℤ
limit_of none page_size = pos page_size
limit_of (some l) page_size = l.limit

abbrev pub offset_of : Option LimitOffset → ℕ → ℕ → ℤ
offset_of none page page_size = pos (page * page_size)
offset_of (some l) page page_size = l.offset

-- The query of a request.
unfoldable pub table_params :
    Text → Text → List FilterInput → Option Text → TableTabState → TableQueryParams
table_params schema table filters raw_where s =
    let p = s.pagination in
    record {
      schema = schema;
      table = table;
      columns = none;
      filters = some filters;
      raw_where = raw_where;
      filter_mode = some s.filtering.filter_mode;
      sort = none;
      limit = some (limit_of p.limit_offset p.page_size);
      offset = some (offset_of p.limit_offset p.current_page p.page_size);
    }

-- What makes a tab fetch: the functions of useTableTabActions.
pub data Command : Type 0 where
  apply_filters : List FilterInput → Command
  apply_raw_sql : Text → Command
  clear_all : Command
  refresh : Command

abbrev pub inputs_of : TableTabState → List FilterInput
inputs_of s = to_filter_inputs s.filtering.filters

-- The store after the command, and the filters and the raw SQL that are fetched with.
unfoldable pub command : Command → TableTabState → TableTabState × List FilterInput × Option Text
unfolding apply
command (apply_filters filters) s = (s, filters, s.filtering.raw_sql_where)
command (apply_raw_sql sql) s = (apply (set_raw_sql_where (some sql)) s, inputs_of s, some sql)
command clear_all s = (apply clear_filters s, [], none)
command refresh s = (s, inputs_of s, s.filtering.raw_sql_where)
