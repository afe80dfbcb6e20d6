-- ===== src/Queue/Commit.antt =====
-- frontend/src/workbench/lib/mutations/useMutationQueue.ts: the commit of a queue. Between a query
-- and its answer the user can act on the queue, so each answer comes with those actions. The log of
-- the statements that were sent is kept beside the queue.
use vaultsql.Prelude.{
  ℕ, suc, Bool, true, false, List, [], ◌∷◌, ◌++◌, Option, none, some, Text, codes, or_else,
}
use vaultsql.Queue.Entries.{
  MutationEntry, HydratedMutation, Builders, hydrate_all_mutations, QueueAction, act_all,
}

-- How `await db.query` ends: with a response, or with something thrown.
pub data Outcome : Type 0 where
  response : Bool → Option Text → Outcome
  threw : Option Text → Outcome

pub record Answer : Type 0 where
  pub outcome : Outcome
  pub meanwhile : List QueueAction

pub record Session : Type 0 where
  pub entries : List MutationEntry
  pub log : List Text

pub record CommitResult : Type 0 where
  pub success : Bool
  pub committed : ℕ
  pub error : Option Text
  pub failed_index : Option ℕ

abbrev pub done : ℕ → CommitResult
done committed = record { success = true; committed = committed; error = none; failed_index = none }

abbrev pub failed : ℕ → Text → ℕ → CommitResult
failed committed error i = record {
  success = false;
  committed = committed;
  error = some error;
  failed_index = some i;
}

-- The statement is sent, and the user acts until the answer comes.
abbrev pub sent : Answer → HydratedMutation → Session → Session
sent a m s = record { entries = act_all a.meanwhile s.entries; log = s.log ++ m.sql ∷ [] }

-- The n-th query of the commit is answered by `answers n`.
module _ (answers : ℕ → Answer) where
  unfoldable pub commit_from : ℕ → ℕ → List HydratedMutation → Session → CommitResult × Session
  commit_from i committed [] s = (done committed, record s { entries = [] })
  commit_from i committed (m ∷ ms) s =
      let s' = sent (answers i) m s in
      elim (answers i).outcome [
        | response true e ↦ commit_from (suc i) (suc committed) ms s'
        | response false e ↦ (failed committed (or_else e (codes "Query failed")) i, s')
        | threw e ↦ (failed committed (or_else e (codes "Unknown error")) i, s')
      ]

  unfoldable pub commit_entries :
      Builders → Session → List MutationEntry → Option (CommitResult × Session)
  commit_entries db s [] = some (done 0, s)
  commit_entries db s (entry ∷ entries) = elim (hydrate_all_mutations db (entry ∷ entries)) [
    | none ↦ none
    | some hydrated ↦ some (commit_from 0 0 hydrated s)
  ]

  -- `none` where hydration throws: the commit is rejected before anything is sent.
  unfoldable pub commit : Builders → Session → Option (CommitResult × Session)
  unfolding commit_entries
  commit db s = commit_entries db s s.entries
