-- ===== src/Backend/Remote.antt =====
-- frontend/src/workbench/lib/backends/BaseRemoteBackend.ts: what runRemoteQuery and
-- streamRemoteQuery make of the reply of the query service. The requests are the runtime's, so a
-- reply is an argument.
use vaultsql.Prelude.{
  ℕ, Bool, true, false, List, [], ◌∷◌, ◌++◌, map, Option, none, some, Text, codes, truthy, or_else,
  decimal, length, if◌then◌else◌,
}
use vaultsql.Sql.Clauses.{items}
use vaultsql.Backend.Stream.{
  QueryResponse, Parsed, Call, on_columns, on_row, on_complete, on_error, start, failed,
  read_chunks, read_stream, close, response_of,
}

-- How a run ends: something is thrown, with its message if it is an `Error`, or the service answers
-- with a status and a response.
pub data RunReply : Type 0 where
  run_threw : Option Text → RunReply
  answered : Bool → ℕ → QueryResponse → RunReply

-- The body of a refused stream: its `error` and its `detail`.
pub record ErrorBody : Type 0 where
  pub error : Option Text
  pub detail : Option Text

-- How a stream goes: something is thrown before the body is read; the service refuses, with a body
-- that may not be JSON; there is no reader, and the query is run instead; or the body comes in
-- chunks, and then ends or throws.
pub data StreamReply : Type 0 where
  threw_early : Option Text → StreamReply
  refused : ℕ → Option ErrorBody → StreamReply
  unreadable : RunReply → StreamReply
  body : List Text → StreamReply
  broken : List Text → Option Text → StreamReply

-- `a || b`
abbrev pub text_or : Option Text → Text → Text
text_or none b = b
text_or (some a) b = if truthy a then a else b

abbrev pub failure : Text → QueryResponse
failure message = record { success = false; error = some message; columns = none; result = none }

abbrev pub status_text : ℕ → Text
status_text status = codes "Query service error: " ++ decimal status

unfoldable pub run_remote_query : RunReply → QueryResponse
run_remote_query (run_threw message) = failure (or_else message (codes "Unknown query error"))
run_remote_query (answered true status response) = response
run_remote_query (answered false status response) =
    failure (text_or response.error (status_text status))

abbrev pub detail_of : Option ErrorBody → Text → Text
detail_of none detail = detail
detail_of (some b) detail = text_or b.error (text_or b.detail detail)

unfoldable pub apply_stream_handlers : QueryResponse → List Call
apply_stream_handlers r =
    if r.success
    then on_columns (or_else r.columns [])
      ∷ (map on_row (items r.result) ++ on_complete (length (items r.result)) false ∷ [])
    else on_error (or_else r.error (codes "Failed to run query")) ∷ []

abbrev pub told : QueryResponse → QueryResponse × List Call
told r = (r, apply_stream_handlers r)

module _ (parse : Text → Parsed) where
  -- The response, and the calls of the handlers in order.
  unfoldable pub stream_remote_query : StreamReply → QueryResponse × List Call
  unfolding run_remote_query apply_stream_handlers
  stream_remote_query (threw_early message) =
      told (failure (or_else message (codes "Unknown query error")))
  stream_remote_query (refused status b) = told (failure (detail_of b (status_text status)))
  stream_remote_query (unreadable reply) = told (run_remote_query reply)
  stream_remote_query (body chunks) = let s = read_stream parse chunks in (response_of s, s.calls)
  stream_remote_query (broken chunks message) =
      let s = (read_chunks parse chunks [] start).1 in
      let r = failure (or_else message (codes "Unknown query error")) in
      if failed s
      then (response_of (close s), (close s).calls)
      else (r, s.calls ++ apply_stream_handlers r)
