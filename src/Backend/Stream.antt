-- ===== src/Backend/Stream.antt =====
-- The reading of a streamed result in frontend/src/workbench/lib/backends/BaseRemoteBackend.ts
-- (streamRemoteQuery). The calls of the caller's handlers are kept in a log; the handlers are all
-- given and do not throw. What `JSON.parse` makes of a line is a parameter.
use vaultsql.Prelude.{
  ℕ, suc, Bool, true, false, not, ◌||◌, List, [], ◌∷◌, ◌++◌, Option, none, some, Text, codes, split,
  trim, truthy, or_else, if◌then◌else◌,
}
use vaultsql.TableTab.State.{Row}

-- A response. Of the columns only the names are kept.
pub record QueryResponse : Type 0 where
  pub success : Bool
  pub error : Option Text
  pub columns : Option (List Text)
  pub result : Option (List Row)

-- One line of the stream, by its type; `other` has a type that is not handled.
pub data StreamEvent : Type 0 where
  meta : Option (List Text) → StreamEvent
  row : Option Row → StreamEvent
  complete : Option ℕ → Bool → StreamEvent
  error : Option Text → StreamEvent
  other : StreamEvent

-- `JSON.parse`, and the reading of an event's fields: a value, or what was thrown. The message is
-- there if that is an `Error`.
pub data Parsed : Type 0 where
  event : StreamEvent → Parsed
  threw : Option Text → Parsed

-- A call of a handler.
pub data Call : Type 0 where
  on_columns : List Text → Call
  on_row : Row → Call
  on_complete : ℕ → Bool → Call
  on_error : Text → Call

-- The variables of the reading loop, but for the buffer.
pub record StreamState : Type 0 where
  pub rows : List Row
  pub columns : Option (List Text)
  pub stream_error : Option Text
  pub truncated : Bool
  pub row_count : ℕ
  pub complete_seen : Bool
  pub calls : List Call

abbrev pub start : StreamState
start = record {
  rows = [];
  columns = none;
  stream_error = none;
  truncated = false;
  row_count = 0;
  complete_seen = false;
  calls = [];
}

-- `if (streamError)`: an empty message is falsy.
abbrev pub has_text : Option Text → Bool
has_text none = false
has_text (some t) = truthy t

abbrev pub failed : StreamState → Bool
failed s = has_text s.stream_error

abbrev pub called : Call → StreamState → StreamState
called call s = record s { calls = s.calls ++ call ∷ [] }

abbrev pub with_error : Text → StreamState → StreamState
with_error message s = record s {
  stream_error = some message;
  calls = s.calls ++ on_error message ∷ [];
}

unfoldable pub handle_event : StreamEvent → StreamState → StreamState
handle_event (meta columns) s =
    let cols = or_else columns [] in called (on_columns cols) (record s { columns = some cols })
handle_event (row none) s = s
handle_event (row (some r)) s =
    called (on_row r) (record s { rows = s.rows ++ r ∷ []; row_count = suc s.row_count })
handle_event (complete count truncated) s =
    let total = or_else count s.row_count in
    called (on_complete total truncated)
      (record s { complete_seen = true; row_count = total; truncated = truncated })
handle_event (error message) s = with_error (or_else message (codes "Streaming query failed")) s
handle_event other s = s

-- `lines.pop() ?? ''`: the lines before the last, and the last.
abbrev pub pop : List Text → List Text × Text
pop [] = ([], [])
pop (t ∷ []) = ([], t)
pop (t ∷ u ∷ ts) = let (init, last) = pop (u ∷ ts) in (t ∷ init, last)

module _ (parse : Text → Parsed) where
  unfoldable pub handle_parsed : Parsed → StreamState → StreamState
  unfolding handle_event
  handle_parsed (event e) s = handle_event e s
  handle_parsed (threw message) s = with_error (or_else message (codes "Failed to parse stream")) s

  -- A line that is not blank is parsed and handled.
  unfoldable pub read_line : Text → StreamState → StreamState
  read_line line s = if truthy (trim line) then handle_parsed (parse (trim line)) s else s

  -- The lines of one chunk; an error leaves the loop.
  unfoldable pub read_lines : List Text → StreamState → StreamState
  read_lines [] s = s
  read_lines (line ∷ lines) s =
      let s' = read_line line s in let rest = read_lines lines s' in if failed s' then s' else rest

  -- The chunks as they arrive, decoded, each behind what is left of the one before.
  unfoldable pub read_chunks : List Text → Text → StreamState → Text × StreamState
  read_chunks [] buffer s = (buffer, s)
  read_chunks (chunk ∷ chunks) buffer s =
      let (lines, rest) = pop (split b'\n' (buffer ++ chunk)) in
      let s' = read_lines lines s in
      let later = read_chunks chunks rest s' in if failed s' then (rest, s') else later

  -- The tail, unless the loop was left by an error.
  unfoldable pub read_tail : Text × StreamState → StreamState
  read_tail (buffer, s) = if failed s then s else read_line buffer s

-- A stream that ends without a word of completion is complete.
unfoldable pub close : StreamState → StreamState
close s = if s.complete_seen || failed s then s else called (on_complete s.row_count s.truncated) s

unfoldable pub response_of : StreamState → QueryResponse
response_of s = record {
  success = not (failed s);
  error = if failed s then s.stream_error else none;
  columns = s.columns;
  result = some s.rows;
}

module _ (parse : Text → Parsed) where
  unfoldable pub read_stream : List Text → StreamState
  unfolding read_chunks read_tail close
  read_stream chunks = close (read_tail parse (read_chunks parse chunks [] start))
