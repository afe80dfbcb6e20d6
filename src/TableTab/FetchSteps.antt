-- ===== src/TableTab/FetchSteps.antt =====
-- Each thing that happens to a request keeps what is known of its rows.
use vaultsql.Prelude.{
  ℕ, Bool, true, false, List, [], ◌∷◌, ◌++◌, append_assoc, append-nil, is_empty, Option, none, some,
  ◌⊎◌, inl, inr, ◌≡◌, refl, ap, sym, ◌∙◌, Text, first_of, Bool-cases,
}
use vaultsql.Backend.Stream.{Call, on_columns, on_row, on_complete, on_error}
use vaultsql.Backend.Told.{told_row, told_rows, told_rows-append}
use vaultsql.TableTab.State.{get_rows, Row, QueryResponse}
use vaultsql.TableTab.Actions.{Action, set_data_error, apply}
use vaultsql.TableTab.Fetching.{Fetching, stored, flush_rows, handle_call, settle, timed}
use vaultsql.TableTab.Fetched.{IsFetching, IsPending, is_current}

module _ (n : ℕ) where
  IsFetching-flush :
      (calls : List Call) (s : Fetching)
      → IsFetching n calls s
      → IsFetching n calls (flush_rows n s) × (is_empty (flush_rows n s).buffer ≡ true)
  unfolding flush_rows apply get_rows
  IsFetching-flush calls s v = elim (Bool-cases (is_empty s.buffer)) [
    | inl e ↦ rw (is_current v, e) (v, e)
    | inr e ↦
        rw (is_current v, e)
          (
            record {
              current = v.current;
              rows_kept = append-nil (s.rows ++ s.buffer) ∙ v.rows_kept;
              timer_current = v.timer_current;
              rows_shown = λ _ _. refl;
            },
            refl,
          )
  ]

  told_one :
      (calls : List Call) (c : Call) (rows : List Row)
      → rows ≡ told_rows calls
      → rows ++ told_row c ≡ told_rows (calls ++ c ∷ [])
  told_one calls c rows h =
      ap (λ l. l ++ told_row c) h
      ∙ (ap (λ l. told_rows calls ++ l) (sym (append-nil (told_row c)))
          ∙ sym (told_rows-append calls (c ∷ [])))

  told_nothing :
      (calls : List Call) (c : Call) (rows : List Row)
      → told_row c ≡ []
      → rows ≡ told_rows calls
      → rows ≡ told_rows (calls ++ c ∷ [])
  told_nothing calls c rows e h =
      sym (append-nil rows) ∙ (ap (λ l. rows ++ l) (sym e) ∙ told_one calls c rows h)

  -- The calls may be counted anew if they tell the same rows.
  pub IsFetching-calls :
      (calls more : List Call) (s : Fetching)
      → told_rows calls ≡ told_rows more
      → IsFetching n calls s
      → IsFetching n more s
  IsFetching-calls calls more s e v = record {
    current = v.current;
    rows_kept = v.rows_kept ∙ e;
    timer_current = v.timer_current;
    rows_shown = v.rows_shown;
  }

  emptied : (s : Fetching) → is_empty s.buffer ≡ true → IsPending n s
  emptied s e h = absurd (cc (e, h))

  -- The timer that a new row finds or sets.
  timer_set :
      (timer : Option ℕ) → (timer ≡ none) ⊎ (timer ≡ some n) → first_of timer (some n) ≡ some n
  timer_set timer (inl e) = rw e refl
  timer_set timer (inr e) = rw e refl

  pub handle_call-IsFetching :
      (calls : List Call) (c : Call) (s : Fetching)
      → IsFetching n calls s
      → IsPending n s
      → IsFetching n (calls ++ c ∷ []) (handle_call n c s) × IsPending n (handle_call n c s)
  unfolding handle_call apply get_rows
  handle_call-IsFetching calls (on_columns columns) s v p = (
    record {
      current = v.current;
      rows_kept = told_nothing calls _ (s.rows ++ s.buffer) refl v.rows_kept;
      timer_current = v.timer_current;
      rows_shown = λ _ _. refl;
    },
    p,
  )
  handle_call-IsFetching calls (on_row row) s v p = (
    record {
      current = v.current;
      rows_kept =
          sym (append_assoc s.rows s.buffer (row ∷ []))
          ∙ told_one calls (on_row row) (s.rows ++ s.buffer) v.rows_kept;
      timer_current = inr (timer_set s.timer v.timer_current);
      rows_shown = v.rows_shown;
    },
    λ _. timer_set s.timer v.timer_current,
  )
  handle_call-IsFetching calls (on_complete count truncated) s v p =
      let (w, empty) = IsFetching-flush calls s v in
      (
        IsFetching-calls calls _ _
            (told_nothing calls (on_complete count truncated) (told_rows calls) refl refl) w,
        emptied (flush_rows n s) empty,
      )
  handle_call-IsFetching calls (on_error message) s v p = (
    record {
      current = v.current;
      rows_kept = told_nothing calls _ (s.rows ++ s.buffer) refl v.rows_kept;
      timer_current = v.timer_current;
      rows_shown = λ _ h. absurd (cc h);
    },
    p,
  )

  -- A change of the store that leaves what was fetched.
  pub IsFetching-stored :
      (calls : List Call) (a : Action) (s : Fetching)
      → (apply a s.store).fetched ≡ s.store.fetched
      → IsFetching n calls s
      → IsFetching n calls (stored a s)
  IsFetching-stored calls a s e v = record {
    current = v.current;
    rows_kept = v.rows_kept;
    timer_current = v.timer_current;
    rows_shown = rw e v.rows_shown;
  }

  pub IsFetching-failed :
      (calls : List Call) (message : Text) (s : Fetching)
      → IsFetching n calls s
      → IsFetching n calls (stored (set_data_error message) s)
  unfolding apply
  IsFetching-failed calls message s v = record {
    current = v.current;
    rows_kept = v.rows_kept;
    timer_current = v.timer_current;
    rows_shown = λ _ h. absurd (cc h);
  }

  pub settle-IsFetching :
      (calls : List Call) (ok : Bool) (error : Option Text) (response : QueryResponse)
      (s : Fetching)
      → IsFetching n calls s
      → IsPending n s
      → IsFetching n calls (settle n ok error response s)
        × IsPending n (settle n ok error response s)
  unfolding settle apply
  settle-IsFetching calls true error response s v p =
      let (w, empty) = IsFetching-flush calls s v in
      (
        record {
          current = w.current;
          rows_kept = w.rows_kept;
          timer_current = w.timer_current;
          rows_shown = λ h _. absurd (cc h);
        },
        emptied (settle n true error response s) empty,
      )
  settle-IsFetching calls false error response s v p = (IsFetching-failed calls _ s v, p)

  pub IsFetching-timed :
      (calls : List Call) (timer : Option ℕ) (s : Fetching)
      → (timer ≡ none) ⊎ (timer ≡ some n)
      → s.timer ≡ timer
      → IsFetching n calls s
      → IsPending n s
      → IsFetching n calls (timed timer s) × (is_empty (timed timer s).buffer ≡ true)
  IsFetching-timed calls none s t h v p =
      (v, elim (Bool-cases (is_empty s.buffer)) [ inl e ↦ e | inr e ↦ absurd (cc (p e, h)) ])
  IsFetching-timed calls (some k) s (inl e) h v p = absurd (cc e)
  IsFetching-timed calls (some k) s (inr e) h v p =
      let k_is_n : k ≡ n = cc e in
      rw k_is_n (
        IsFetching-flush calls (record s { timer = none })
          (record {
            current = v.current;
            rows_kept = v.rows_kept;
            timer_current = inl refl;
            rows_shown = v.rows_shown;
          }))
