-- ===== src/TableTab/Fetched.antt =====
-- What is shown while a request streams its rows, whatever else happens meanwhile.
use vaultsql.Prelude.{
  ℕ, Bool, true, false, not, ◌&&◌, List, [], ◌∷◌, ◌++◌, is_empty, none, some, ◌⊎◌, ◌≡◌, arith, ◌==◌,
  ==_refl, if◌then◌else◌,
}
use vaultsql.Backend.Stream.{Call}
use vaultsql.Backend.Told.{told_rows}
use vaultsql.TableTab.State.{TabStatus, success, TableTabState}
use vaultsql.TableTab.Actions.{
  Action, set_data_loading, set_data_success, set_data_error, update_streaming_data, apply,
}
use vaultsql.TableTab.Fetching.{Fetching, FetchEvent, started, told, acted}

abbrev pub is_data : Action → Bool
is_data set_data_loading = true
is_data (set_data_success r) = true
is_data (set_data_error e) = true
is_data (update_streaming_data r) = true
is_data _ = false

-- No request is started, and the user's actions are not those of the fetching itself.
abbrev pub is_quiet : FetchEvent → Bool
is_quiet (started f) = false
is_quiet (acted a) = not (is_data a)
is_quiet _ = true

abbrev pub all_quiet : List FetchEvent → Bool
all_quiet [] = true
all_quiet (e ∷ es) = is_quiet e && all_quiet es

abbrev pub call_of : ℕ → FetchEvent → List Call
call_of n (told id call) = if id == n then call ∷ [] else []
call_of n _ = []

-- What the stream of request n has told.
abbrev pub calls_of : ℕ → List FetchEvent → List Call
calls_of n [] = []
calls_of n (e ∷ es) = call_of n e ++ calls_of n es

abbrev pub is_success : TabStatus → Bool
is_success success = true
is_success _ = false

abbrev pub is_done : TableTabState → Bool
is_done s = is_success s.fetched.status

abbrev pub has_result : TableTabState → Bool
has_result s = elim s.fetched.result [ none ↦ false | some r ↦ true ]

pub fetched-apply :
    (a : Action) (s : TableTabState) → is_data a ≡ false → (apply a s).fetched ≡ s.fetched
unfolding apply
fetched-apply Action.set_data_loading s h = absurd (cc h)
fetched-apply a s h = ground arith

-- Request n is the last one, and the handlers have been told these calls.
pub record IsFetching (n : ℕ) (calls : List Call) (s : Fetching) : Type 0 where
  pub current : s.request_id ≡ n
  pub rows_kept : s.rows ++ s.buffer ≡ told_rows calls
  pub timer_current : (s.timer ≡ none) ⊎ (s.timer ≡ some n)
  pub rows_shown :
      is_done s.store ≡ false → has_result s.store ≡ true → s.store.fetched.rows ≡ s.rows

-- Rows that are not shown yet have a timer.
abbrev pub IsPending : ℕ → Fetching → Type 0
IsPending n s = is_empty s.buffer ≡ false → s.timer ≡ some n

pub is_current :
    {n : ℕ} {calls : List Call} {s : Fetching} → IsFetching n calls s → (n == s.request_id) ≡ true
is_current {n} v = rw v.current (==_refl n)
