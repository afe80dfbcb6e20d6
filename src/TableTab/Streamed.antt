-- ===== src/TableTab/Streamed.antt =====
-- The rows that a request has streamed are shown, in order, whatever happens meanwhile.
use vaultsql.Prelude.{
  ℕ, suc, Bool, true, false, List, [], ◌∷◌, ◌++◌, append_assoc, append-nil, is_empty, inl, inr, ◌≡◌,
  refl, ap, ◌∙◌, arith, ◌==◌, ==_iff, if◌then◌else◌, Bool-cases,
}
use vaultsql.Backend.Stream.{Call}
use vaultsql.TableTab.Actions.{set_total_row_count, apply}
use vaultsql.TableTab.Fetching.{
  Fetching, FetchEvent, started, counted, told, answered, threw, fired, acted, start_fetch, settle,
  fetch_step, run_events,
}
use vaultsql.TableTab.Fetched.{
  is_quiet, all_quiet, call_of, calls_of, IsFetching, IsPending, fetched-apply,
}
use vaultsql.TableTab.FetchSteps.{
  handle_call-IsFetching, IsFetching-stored, IsFetching-failed, settle-IsFetching, IsFetching-timed,
}

module _ (n : ℕ) where
  -- Request n is the last one, and all it has told is shown or about to be.
  abbrev pub IsStreaming : List Call → Fetching → Type 0
  IsStreaming calls s = IsFetching n calls s × IsPending n s

  IsStreaming-nil :
      (calls : List Call) (s : Fetching) → IsStreaming calls s → IsStreaming (calls ++ []) s
  IsStreaming-nil calls s v = rw (append-nil calls) v

  -- An event of another request, or of this one.
  by_request :
      (id : ℕ) (calls : List Call) (s t : Fetching)
      → IsStreaming calls s
      → (id ≡ n → IsStreaming calls t)
      → IsStreaming calls (if id == s.request_id then t else s)
  by_request id calls s t v w = elim (Bool-cases (id == s.request_id)) [
    | inl e ↦ rw e (w ((==_iff id s.request_id).0 e ∙ v.0.current))
    | inr e ↦ rw e v
  ]

  fetch_step-IsStreaming :
      (e : FetchEvent) (calls : List Call) (s : Fetching)
      → is_quiet e ≡ true
      → IsStreaming calls s
      → IsStreaming (calls ++ call_of n e) (fetch_step e s)
  unfolding fetch_step apply
  fetch_step-IsStreaming (started f) calls s h v = absurd (cc h)
  fetch_step-IsStreaming (counted count) calls s h (v, p) =
      IsStreaming-nil calls _ (IsFetching-stored n calls (set_total_row_count count) s refl v, p)
  fetch_step-IsStreaming (acted a) calls s h (v, p) =
      IsStreaming-nil calls _
        (IsFetching-stored n calls a s (fetched-apply a s.store (ground arith)) v, p)
  fetch_step-IsStreaming (answered id ok error response) calls s h v = IsStreaming-nil calls _ (
      by_request id calls s (settle id ok error response s) v
        (λ e. rw e (settle-IsFetching n calls ok error response s v.0 v.1)))
  fetch_step-IsStreaming (threw id message) calls s h v =
      IsStreaming-nil calls _
        (by_request id calls s _ v (λ _. (IsFetching-failed n calls _ s v.0, v.1)))
  fetch_step-IsStreaming fired calls s h (v, p) =
      let (w, empty) = IsFetching-timed n calls s.timer s v.timer_current refl v p in
      IsStreaming-nil calls _ (w, λ k. absurd (cc (empty, k)))
  fetch_step-IsStreaming (told id call) calls s h v =
      let same_request : (id == s.request_id) ≡ (id == n) = ap (λ x. id == x) v.0.current in
      elim (Bool-cases (id == n)) [
        | inl e ↦
            rw (same_request ∙ e, e, (==_iff id n).0 e)
              (handle_call-IsFetching n calls call s v.0 v.1)
        | inr e ↦ rw (same_request ∙ e, e) (IsStreaming-nil calls s v)
      ]

  run_events-IsStreaming :
      (es : List FetchEvent) (calls : List Call) (s : Fetching)
      → all_quiet es ≡ true
      → IsStreaming calls s
      → IsStreaming (calls ++ calls_of n es) (run_events es s)
  unfolding run_events
  run_events-IsStreaming [] calls s h v = IsStreaming-nil calls s v
  run_events-IsStreaming (e ∷ es) calls s h v =
      rw (← append_assoc calls (call_of n e) (calls_of n es)) (
        run_events-IsStreaming es (calls ++ call_of n e) (fetch_step e s) (ground arith)
          (fetch_step-IsStreaming e calls s (ground arith) v))

start_fetch-IsStreaming :
    (is_filtered : Bool) (s : Fetching)
    → IsStreaming (suc s.request_id) [] (start_fetch is_filtered s)
unfolding start_fetch apply
start_fetch-IsStreaming true s = (
  record {
    current = refl;
    rows_kept = refl;
    timer_current = inl refl;
    rows_shown = λ _ h. absurd (cc h);
  },
  λ h. absurd (cc h),
)
start_fetch-IsStreaming false s = (
  record {
    current = refl;
    rows_kept = refl;
    timer_current = inl refl;
    rows_shown = λ _ h. absurd (cc h);
  },
  λ h. absurd (cc h),
)

-- Let a request start, and then anything happen but the start of another: handlers of any request
-- are called, any request ends, the timer fires, a count arrives, or the user acts on the rest of
-- the store, in any order. The rows collected and buffered are those that the handlers of this
-- request have been told, in order; unless it has succeeded, a result that is shown has the rows
-- collected; and rows that are only buffered wait for the timer, after which none are.
pub run_events-start_fetch :
    (is_filtered : Bool) (es : List FetchEvent) (s : Fetching)
    → all_quiet es ≡ true
    → let n = suc s.request_id in
      let t = run_events es (start_fetch is_filtered s) in
      IsFetching n (calls_of n es) t
      × IsPending n t
      × IsFetching n (calls_of n es) (fetch_step fired t)
      × (is_empty (fetch_step fired t).buffer ≡ true)
unfolding fetch_step
run_events-start_fetch is_filtered es s h =
    let n = suc s.request_id in
    let t = run_events es (start_fetch is_filtered s) in
    let (v, p) =
      run_events-IsStreaming n es [] (start_fetch is_filtered s) h
        (start_fetch-IsStreaming is_filtered s) in
    let (w, empty) = IsFetching-timed n (calls_of n es) t.timer t v.timer_current refl v p in
    (v, p, w, empty)
