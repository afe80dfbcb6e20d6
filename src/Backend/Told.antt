-- ===== src/Backend/Told.antt =====
-- What the handlers of a streamed query are told.
use vaultsql.Prelude.{
  Bool, true, false, ◌||◌, List, [], ◌∷◌, ◌++◌, map, append_assoc, append-nil, Option, none, some,
  ◌≡◌, refl, ap, sym, ◌∙◌, arith, Text, truthy, trim, split, Bool-cases, inl, inr,
}
use vaultsql.TableTab.State.{Row}
use vaultsql.Backend.Stream.{
  Parsed, event, threw, pop, StreamEvent, meta, row, complete, error, other, StreamState, start,
  failed, Call, on_row, on_complete, on_error, with_error, handle_event, handle_parsed, read_line,
  read_lines, read_chunks, read_tail,
}

abbrev pub told_row : Call → List Row
told_row (on_row r) = r ∷ []
told_row _ = []

-- The rows that the handlers have seen, in order.
abbrev pub told_rows : List Call → List Row
told_rows [] = []
told_rows (c ∷ cs) = told_row c ++ told_rows cs

abbrev pub is_completion : Call → Bool
is_completion (on_complete n t) = true
is_completion _ = false

abbrev pub completed : List Call → Bool
completed [] = false
completed (c ∷ cs) = is_completion c || completed cs

abbrev pub last_call : List Call → Option Call
last_call [] = none
last_call (c ∷ []) = some c
last_call (c ∷ d ∷ cs) = last_call (d ∷ cs)

pub last_call-append : (cs : List Call) (c : Call) → last_call (cs ++ c ∷ []) ≡ some c
last_call-append [] c = refl
last_call-append (d ∷ []) c = refl
last_call-append (d ∷ e ∷ cs) c = last_call-append (e ∷ cs) c

pub told_rows-append : (cs ds : List Call) → told_rows (cs ++ ds) ≡ told_rows cs ++ told_rows ds
told_rows-append [] ds = refl
told_rows-append (c ∷ cs) ds =
    ap (λ l. told_row c ++ l) (told_rows-append cs ds)
    ∙ sym (append_assoc (told_row c) (told_rows cs) (told_rows ds))

pub completed-append : (cs ds : List Call) → completed (cs ++ ds) ≡ (completed cs || completed ds)
completed-append [] ds = refl
completed-append (c ∷ cs) ds = ground (arith, completed-append cs ds)

pub told_rows-map : (rows : List Row) → told_rows (map on_row rows) ≡ rows
told_rows-map [] = refl
told_rows-map (r ∷ rows) = ap (λ l. r ∷ l) (told_rows-map rows)

abbrev pub error_call : Option Text → Option Call
error_call none = none
error_call (some t) = some (on_error t)

-- The rows, the completion and the failure are those that the handlers have been told of.
pub record IsTold (s : StreamState) : Type 0 where
  pub rows_told : s.rows ≡ told_rows s.calls
  pub completion_told : s.complete_seen ≡ true → completed s.calls ≡ true
  pub failure_told : failed s ≡ true → last_call s.calls ≡ error_call s.stream_error

with_error-IsTold : (message : Text) (s : StreamState) → IsTold s → IsTold (with_error message s)
with_error-IsTold message s v = record {
  rows_told =
      v.rows_told
      ∙ sym (told_rows-append s.calls (on_error message ∷ []) ∙ append-nil (told_rows s.calls));
  completion_told =
      λ h. completed-append s.calls (on_error message ∷ []) ∙ rw (v.completion_told h) refl;
  failure_told = λ _. last_call-append s.calls (on_error message);
}

pub clash : {P : Type 0} {b : Bool} → b ≡ true → b ≡ false → P
clash h k = absurd (cc)

handle_event-IsTold :
    (e : StreamEvent) (s : StreamState) → failed s ≡ false → IsTold s → IsTold (handle_event e s)
unfolding handle_event
handle_event-IsTold (meta columns) s k v = record {
  rows_told = v.rows_told ∙ sym (told_rows-append s.calls _ ∙ append-nil (told_rows s.calls));
  completion_told = λ h. completed-append s.calls _ ∙ rw (v.completion_told h) refl;
  failure_told = λ h. clash h k;
}
handle_event-IsTold (row none) s k v = v
handle_event-IsTold (row (some r)) s k v = record {
  rows_told = ap (λ l. l ++ r ∷ []) v.rows_told ∙ sym (told_rows-append s.calls (on_row r ∷ []));
  completion_told = λ h. completed-append s.calls _ ∙ rw (v.completion_told h) refl;
  failure_told = λ h. clash h k;
}
handle_event-IsTold (complete count truncated) s k v = record {
  rows_told = v.rows_told ∙ sym (told_rows-append s.calls _ ∙ append-nil (told_rows s.calls));
  completion_told = λ h. completed-append s.calls _ ∙ ground arith;
  failure_told = λ h. clash h k;
}
handle_event-IsTold (error message) s k v = with_error-IsTold _ s v
handle_event-IsTold other s k v = v

module _ (parse : Text → Parsed) where
  handle_parsed-IsTold :
      (p : Parsed) (s : StreamState)
      → failed s ≡ false
      → IsTold s
      → IsTold (handle_parsed parse p s)
  unfolding handle_parsed
  handle_parsed-IsTold (event e) s k v = handle_event-IsTold e s k v
  handle_parsed-IsTold (threw message) s k v = with_error-IsTold _ s v

  read_line-IsTold :
      (line : Text) (s : StreamState)
      → failed s ≡ false
      → IsTold s
      → IsTold (read_line parse line s)
  unfolding read_line
  read_line-IsTold line s k v = elim (Bool-cases (truthy (trim line))) [
    | inl e ↦ rw e (handle_parsed-IsTold (parse (trim line)) s k v)
    | inr e ↦ rw e v
  ]

  read_lines-IsTold :
      (lines : List Text) (s : StreamState)
      → failed s ≡ false
      → IsTold s
      → IsTold (read_lines parse lines s)
  unfolding read_lines
  read_lines-IsTold [] s k v = v
  read_lines-IsTold (line ∷ lines) s k v =
      let v' = read_line-IsTold line s k v in
      elim (Bool-cases (failed (read_line parse line s))) [
        | inl e ↦ rw e v'
        | inr e ↦ rw e (read_lines-IsTold lines (read_line parse line s) e v')
      ]

  pub read_chunks-IsTold :
      (chunks : List Text) (buffer : Text) (s : StreamState)
      → failed s ≡ false
      → IsTold s
      → IsTold (read_chunks parse chunks buffer s).1
  unfolding read_chunks
  read_chunks-IsTold [] buffer s k v = v
  read_chunks-IsTold (chunk ∷ chunks) buffer s k v =
      let parts = pop (split b'\n' (buffer ++ chunk)) in
      let s' = read_lines parse parts.0 s in
      let v' = read_lines-IsTold parts.0 s k v in
      elim (Bool-cases (failed s')) [
        | inl e ↦ rw e v'
        | inr e ↦ rw e (read_chunks-IsTold chunks parts.1 s' e v')
      ]

  pub read_tail-IsTold :
      (buffer : Text) (s : StreamState) → IsTold s → IsTold (read_tail parse (buffer, s))
  unfolding read_tail
  read_tail-IsTold buffer s v = elim (Bool-cases (failed s)) [
    | inl e ↦ rw e v
    | inr e ↦ rw e (read_line-IsTold buffer s e v)
  ]

pub start-IsTold : IsTold start
start-IsTold = record { rows_told = refl; completion_told = λ h. cc; failure_told = λ h. cc }
