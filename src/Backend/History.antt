-- ===== src/Backend/History.antt =====
-- The history of queries in frontend/src/workbench/lib/backends: BaseRemoteBackend.ts keeps the last
-- hundred in memory, and LocalMemoryBackend.ts all.
use vaultsql.Prelude.{
  ℕ, zero, suc, ◌≤◌, List, [], ◌∷◌, ◌≡◌, refl, ap, ◌∙◌, length, length-take, take, take-take-suc,
  Text, Option,
}

pub record HistoryItem : Type 0 where
  pub id : Text
  pub query : Text
  pub timestamp : ℕ
  pub duration_ms : ℕ
  pub row_count : Option ℕ
  pub operation : Option Text
  pub actor : Option Text
  pub error : Option Text

pub data HistoryAction : Type 0 where
  add : HistoryItem → HistoryAction
  clear : HistoryAction

abbrev pub history_limit : ℕ
history_limit = 100

-- `[item, ...memoryHistory].slice(0, limit)`
unfoldable pub remember : ℕ → HistoryAction → List HistoryItem → List HistoryItem
remember limit (add item) history = take limit (item ∷ history)
remember limit clear history = []

-- `this.history.unshift(item)`
unfoldable pub remember_all : HistoryAction → List HistoryItem → List HistoryItem
remember_all (add item) history = item ∷ history
remember_all clear history = []

unfoldable pub remote_history : List HistoryAction → List HistoryItem → List HistoryItem
unfolding remember
remote_history [] history = history
remote_history (a ∷ actions) history = remote_history actions (remember history_limit a history)

unfoldable pub local_history : List HistoryAction → List HistoryItem → List HistoryItem
unfolding remember_all
local_history [] history = history
local_history (a ∷ actions) history = local_history actions (remember_all a history)

take-cons :
    (n : ℕ) (x : HistoryItem) (xs : List HistoryItem) → take n (x ∷ take n xs) ≡ take n (x ∷ xs)
take-cons zero x xs = refl
take-cons (suc n) x xs = ap (λ l. x ∷ l) (take-take-suc n xs)

remember-take :
    (n : ℕ) (a : HistoryAction) (history : List HistoryItem)
    → remember n a (take n history) ≡ take n (remember_all a history)
unfolding remember remember_all
remember-take n (add item) history = take-cons n item history
remember-take zero clear history = refl
remember-take (suc n) clear history = refl

remote_history-take :
    (actions : List HistoryAction) (history : List HistoryItem)
    → remote_history actions (take history_limit history)
      ≡ take history_limit (local_history actions history)
unfolding remote_history local_history
remote_history-take [] history = refl
remote_history-take (a ∷ actions) history =
    ap (remote_history actions) (remember-take history_limit a history)
    ∙ remote_history-take actions (remember_all a history)

-- After any actions on an empty history, the remote backend lists the latest hundred of what the
-- memory backend lists, in the same order, and never more.
pub remote_history_lem :
    (actions : List HistoryAction)
    → (remote_history actions [] ≡ take history_limit (local_history actions []))
      × (length (remote_history actions []) ≤ history_limit)
remote_history_lem actions =
    let same_items = remote_history-take actions [] in
    (same_items, rw same_items (length-take history_limit (local_history actions [])))
