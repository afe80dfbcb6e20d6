-- ===== src/Backend/Local.antt =====
-- Queries without a streaming service: frontend/src/workbench/lib/backends/LocalMemoryBackend.ts,
-- and streamQuery of frontend/src/workbench/lib/DatabaseService.ts.
use vaultsql.Prelude.{true, false, List, ◌++◌, Option, none, some, codes, or_else, decimal}
use vaultsql.Backend.Stream.{QueryResponse, Call}
use vaultsql.Backend.Remote.{RunReply, run_threw, answered, failure, apply_stream_handlers, told}
use vaultsql.Backend.Announced.{IsAnnounced, IsAnnounced-apply}

-- A status that is not a success is thrown, and caught with what else is thrown.
unfoldable pub run_memory_query : RunReply → QueryResponse
run_memory_query (run_threw message) =
    failure (or_else message (codes "Unknown error executing query"))
run_memory_query (answered true status response) = response
run_memory_query (answered false status response) =
    failure (codes "Query failed with status " ++ decimal status)

unfoldable pub stream_memory_query : RunReply → QueryResponse × List Call
unfolding run_memory_query apply_stream_handlers
stream_memory_query reply = told (run_memory_query reply)

-- The service streams if its backend can, and else runs the query and calls the handlers itself.
unfoldable pub service_stream :
    Option (QueryResponse × List Call) → QueryResponse → QueryResponse × List Call
unfolding apply_stream_handlers
service_stream (some streamed) response = streamed
service_stream none response = told response

-- The handlers of a query that is not streamed are told its response.
pub stream_memory_query-IsAnnounced :
    (reply : RunReply) → let (r, calls) = stream_memory_query reply in IsAnnounced r calls
unfolding stream_memory_query
stream_memory_query-IsAnnounced reply = IsAnnounced-apply (run_memory_query reply)
