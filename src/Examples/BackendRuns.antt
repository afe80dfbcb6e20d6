-- ===== src/Examples/BackendRuns.antt =====
-- A stream of three events, cut into two chunks, and a history of three actions.
use vaultsql.Prelude.{
  false, List, [], ◌∷◌, none, some, ◌≡◌, refl, Text, codes, split, concat, same, if◌then◌else◌,
}
use vaultsql.Backend.Stream.{
  Parsed, event, threw, row, complete, start, read_stream, read_lines, read_line, handle_parsed,
  close,
}
use vaultsql.Backend.Remote.{body, stream_remote_query}
use vaultsql.Backend.Chunks.{read_stream-lines}
use vaultsql.Backend.Announced.{IsAnnounced, stream_remote_query-IsAnnounced}
use vaultsql.Backend.History.{HistoryItem}

abbrev pub parse_line : Text → Parsed
parse_line line =
    if same line (codes "row")
    then event (row (some []))
    else if same line (codes "end")
    then event (complete none false)
    else threw (some (codes "Unexpected token"))

abbrev pub chunks : List Text
chunks = codes "row\nro" ∷ codes "w\n end" ∷ []

read_stream-lines_example :
    read_stream parse_line chunks
    ≡ close (read_lines parse_line (split b'\n' (concat chunks)) start)
read_stream-lines_example = read_stream-lines parse_line chunks

stream_remote_query-IsAnnounced_example :
    let (r, calls) = stream_remote_query parse_line (body chunks) in IsAnnounced r calls
stream_remote_query-IsAnnounced_example = stream_remote_query-IsAnnounced parse_line (body chunks)

-- Both rows are read.
streamed_rows : (read_stream parse_line chunks).rows ≡ [] ∷ [] ∷ []
unfolding read_stream read_lines read_line handle_parsed
streamed_rows = refl

abbrev item : HistoryItem
item = record {
  id = codes "1";
  query = codes "SELECT 1";
  timestamp = 7;
  duration_ms = 3;
  row_count = some 1;
  operation = none;
  actor = none;
  error = none;
}
