-- ===== src/Backend/Announced.antt =====
-- What a response says has been told to the handlers of its query.
use vaultsql.Prelude.{
  ℕ, Bool, true, false, ◌||◌, List, [], ◌++◌, map, append-nil, Option, none, some, ◌≡◌, refl, sym,
  ◌∙◌, arith, Text, codes, or_else, Bool-cases, inl, inr,
}
use vaultsql.Sql.Clauses.{items}
use vaultsql.Backend.Stream.{
  Parsed, StreamState, start, failed, has_text, called, Call, on_row, on_complete, on_error,
  QueryResponse, read_chunks, read_tail, close, read_stream, response_of,
}
use vaultsql.Backend.Remote.{
  StreamReply, threw_early, refused, unreadable, body, broken, apply_stream_handlers,
  stream_remote_query, failure,
}
use vaultsql.Backend.Told.{
  told_rows, completed, last_call, last_call-append, told_rows-append, completed-append,
  told_rows-map, error_call, IsTold, clash, read_chunks-IsTold, read_tail-IsTold, start-IsTold,
}

-- What a response says is what the handlers have been told: a success had a completion and its rows,
-- in order, and a failure had its error as the last call.
pub record IsAnnounced (r : QueryResponse) (calls : List Call) : Type 0 where
  pub success_told : r.success ≡ true → completed calls ≡ true
  pub rows_seen : r.success ≡ true → items r.result ≡ told_rows calls
  pub failure_last :
      r.success ≡ false
      → last_call calls ≡ some (on_error (or_else r.error (codes "Failed to run query")))

error_call-some :
    (e : Option Text) (d : Text) → has_text e ≡ true → error_call e ≡ some (on_error (or_else e d))
error_call-some none d h = cc
error_call-some (some t) d h = refl

IsAnnounced-response_of :
    (s : StreamState)
    → IsTold s
    → (failed s ≡ false → completed s.calls ≡ true)
    → IsAnnounced (response_of s) s.calls
unfolding response_of
IsAnnounced-response_of s v done = elim (Bool-cases (failed s)) [
  | inl e ↦ rw e (record {
    success_told = λ h. cc;
    rows_seen = λ h. cc;
    failure_last = λ _. v.failure_told e ∙ error_call-some s.stream_error _ e;
  })
  | inr e ↦
      rw e (record {
        success_told = λ _. done e;
        rows_seen = λ _. v.rows_told;
        failure_last = λ h. cc;
      })
]

close-kept : (s : StreamState) → (s.complete_seen || failed s) ≡ true → close s ≡ s
unfolding close
close-kept s h = rw h refl

close-completed :
    (s : StreamState)
    → (s.complete_seen || failed s) ≡ false
    → close s ≡ called (on_complete s.row_count s.truncated) s
unfolding close
close-completed s h = rw h refl

called_complete-IsTold :
    (n : ℕ) (t : Bool) (s : StreamState)
    → failed s ≡ false
    → IsTold s
    → IsTold (called (on_complete n t) s)
called_complete-IsTold n t s k v = record {
  rows_told = v.rows_told ∙ sym (told_rows-append s.calls _ ∙ append-nil (told_rows s.calls));
  completion_told = λ h. completed-append s.calls _ ∙ ground arith;
  failure_told = λ h. clash h k;
}

IsAnnounced-close :
    (s : StreamState) → IsTold s → IsAnnounced (response_of (close s)) (close s).calls
IsAnnounced-close s v = elim (Bool-cases (s.complete_seen || failed s)) [
  | inl e ↦
      rw (close-kept s e) (IsAnnounced-response_of s v (λ h. v.completion_told (ground arith)))
  | inr e ↦ rw (close-completed s e) (
      IsAnnounced-response_of (called (on_complete s.row_count s.truncated) s)
        (called_complete-IsTold s.row_count s.truncated s (ground arith) v)
        (λ _. completed-append s.calls _ ∙ ground arith))
]

IsAnnounced-apply_success :
    (r : QueryResponse) → r.success ≡ true → IsAnnounced r (apply_stream_handlers r)
unfolding apply_stream_handlers
IsAnnounced-apply_success r e =
    let rows = items r.result in
    rw e (record {
      success_told = λ _. completed-append (map on_row rows) _ ∙ ground arith;
      rows_seen = λ _. sym (
          told_rows-append (map on_row rows) _
          ∙ append-nil (told_rows (map on_row rows))
          ∙ told_rows-map rows);
      failure_last = λ h. cc;
    })

pub IsAnnounced-apply : (r : QueryResponse) → IsAnnounced r (apply_stream_handlers r)
unfolding apply_stream_handlers
IsAnnounced-apply r = elim (Bool-cases r.success) [
  | inl e ↦ IsAnnounced-apply_success r e
  | inr e ↦ rw e (record { success_told = λ h. cc; rows_seen = λ h. cc; failure_last = λ _. refl })
]

IsAnnounced-failure :
    (message : Text) (calls : List Call)
    → IsAnnounced (failure message) (calls ++ apply_stream_handlers (failure message))
unfolding apply_stream_handlers
IsAnnounced-failure message calls = record {
  success_told = λ h. cc;
  rows_seen = λ h. cc;
  failure_last = λ _. last_call-append calls (on_error message);
}

IsAnnounced-read_stream :
    (parse : Text → Parsed) (chunks : List Text)
    → let s = read_stream parse chunks in IsAnnounced (response_of s) s.calls
unfolding read_stream
IsAnnounced-read_stream parse chunks =
    let (buffer, s) = read_chunks parse chunks [] start in
    IsAnnounced-close (read_tail parse (buffer, s))
      (read_tail-IsTold parse buffer s (read_chunks-IsTold parse chunks [] start refl start-IsTold))

-- However the service replies, and wherever the stream breaks: if the response is a success, the
-- handlers have been told of a completion, and of exactly its rows, in order; if it is a failure,
-- the last call has told its error.
pub stream_remote_query-IsAnnounced :
    (parse : Text → Parsed) (reply : StreamReply)
    → let (r, calls) = stream_remote_query parse reply in IsAnnounced r calls
unfolding stream_remote_query
stream_remote_query-IsAnnounced parse (threw_early message) = IsAnnounced-apply _
stream_remote_query-IsAnnounced parse (refused status b) = IsAnnounced-apply _
stream_remote_query-IsAnnounced parse (unreadable reply) = IsAnnounced-apply _
stream_remote_query-IsAnnounced parse (body chunks) = IsAnnounced-read_stream parse chunks
stream_remote_query-IsAnnounced parse (broken chunks message) =
    let s = (read_chunks parse chunks [] start).1 in
    elim (Bool-cases (failed s)) [
      | inl e ↦
          rw e (IsAnnounced-close s (read_chunks-IsTold parse chunks [] start refl start-IsTold))
      | inr e ↦ rw e (IsAnnounced-failure _ s.calls)
    ]
