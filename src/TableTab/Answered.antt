-- ===== src/TableTab/Answered.antt =====
-- A reply of the query service, streamed into a table's tab.
use vaultsql.Prelude.{
  ℕ, suc, Bool, true, List, Option, none, some, inl, inr, ◌≡◌, refl, ◌∙◌, Text, codes, or_else,
  if◌then◌else◌, Bool-cases,
}
use vaultsql.Sql.Clauses.{items}
use vaultsql.Backend.Stream.{Parsed, Call}
use vaultsql.Backend.Remote.{StreamReply, stream_remote_query}
use vaultsql.Backend.Told.{told_rows}
use vaultsql.Backend.Announced.{stream_remote_query-IsAnnounced}
use vaultsql.TableTab.State.{Row, QueryResponse, success, error, rows_of, get_rows}
use vaultsql.TableTab.Actions.{apply}
use vaultsql.TableTab.Fetching.{
  Fetching, FetchEvent, answered, start_fetch, settle, fetch_step, run_events,
}
use vaultsql.TableTab.Fetched.{all_quiet, calls_of, is_current}
use vaultsql.TableTab.Streamed.{run_events-start_fetch}

rows_of-items : (o : Option (List Row)) → rows_of o ≡ items o
rows_of-items none = refl
rows_of-items (some rows) = refl

-- What the store reads of a response.
abbrev pub response_in : vaultsql.Backend.Stream.QueryResponse → QueryResponse
response_in r = record { result = r.result; columns = r.columns }

abbrev pub answer_event : ℕ → vaultsql.Backend.Stream.QueryResponse → FetchEvent
answer_event n r = answered n r.success r.error (response_in r)

-- Let a request of a tab start, and its stream call the handlers as the service's reply makes it,
-- with anything else between but the start of another request; then the stream ends. The status
-- says whether the response is a success. If it is, the rows shown are those that the handlers have
-- been told, in order, and no error is shown; if not, its error is shown.
pub answered_lem :
    (parse : Text → Parsed) (reply : StreamReply) (is_filtered : Bool) (es : List FetchEvent)
    (s : Fetching)
    → all_quiet es ≡ true
    → calls_of (suc s.request_id) es ≡ (stream_remote_query parse reply).1
    → let (r, calls) = stream_remote_query parse reply in
      let t = run_events es (start_fetch is_filtered s) in
      let u = fetch_step (answer_event (suc s.request_id) r) t in
      (u.store.fetched.status ≡ (if r.success then success else error))
      × (u.store.fetched.rows ≡ (if r.success then told_rows calls else t.store.fetched.rows))
      × (u.store.fetched.message ≡ (
          if r.success then none else some (or_else r.error (codes "Failed to load table data"))))
unfolding fetch_step settle apply get_rows
answered_lem parse reply is_filtered es s quiet told =
    let r = (stream_remote_query parse reply).0 in
    let calls = (stream_remote_query parse reply).1 in
    let v = (run_events-start_fetch is_filtered es s quiet).0 in
    let a = stream_remote_query-IsAnnounced parse reply in
    elim (Bool-cases r.success) [
      | inl e ↦ rw (is_current v, e) (refl, rows_of-items r.result ∙ a.rows_seen e, refl)
      | inr e ↦ rw (is_current v, e) (refl, refl, refl)
    ]
