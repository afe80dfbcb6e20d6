-- ===== src/Queue/Committed.antt =====
-- What a commit does, whatever the database answers and the user does meanwhile.
use vaultsql.Prelude.{
  ℕ, zero, suc, ◌+◌, ◌<◌, Bool, true, false, List, [], ◌∷◌, ◌++◌, map, append_assoc, append-nil,
  none, some, ◌≡◌, refl, ap, ◌∙◌, arith, Text, length, take, ◌==◌, if◌then◌else◌, or_else, codes,
  any, inl, inr, ◌⊎◌, Option-cases,
}
use vaultsql.Queue.Entries.{
  MutationEntry, HydratedMutation, Builders, parse_target, hydrate_payload, hydrate_mutation,
  hydrate_all_mutations, act_all,
}
use vaultsql.Queue.Commit.{
  Outcome, response, threw, Answer, Session, CommitResult, done, failed, sent, commit_from,
  commit_entries, commit,
}

abbrev pub is_success : Outcome → Bool
is_success (response true e) = true
is_success (response false e) = false
is_success (threw e) = false

suc_eq : (a b : ℕ) → (a == b) ≡ (suc a == suc b)
suc_eq a b = ground arith

module _ (answers : ℕ → Answer) where
  -- How many of n queries are answered well before the first that is not.
  abbrev pub leading : ℕ → ℕ → ℕ
  leading i zero = 0
  leading i (suc n) =
      let later = suc (leading (suc i) n) in if is_success (answers i).outcome then later else 0

  -- The queue after the user's actions during n queries.
  abbrev pub acted : ℕ → ℕ → List MutationEntry → List MutationEntry
  acted i zero entries = entries
  acted i (suc n) entries = acted (suc i) n (act_all (answers i).meanwhile entries)

  -- The commit of these statements, numbered from i, ended like this.
  pub record Ended (i : ℕ) (ms : List HydratedMutation) (s : Session) (r : CommitResult)
      (t : Session) : Type 0 where
    pub committed : r.committed ≡ i + leading i (length ms)
    pub success : r.success ≡ (leading i (length ms) == length ms)
    pub failed_index : r.failed_index ≡ (if r.success then none else some r.committed)
    pub log : t.log ≡ s.log ++ map (λ m. m.sql) (take (suc (leading i (length ms))) ms)
    pub entries :
        t.entries ≡ (if r.success then [] else acted i (suc (leading i (length ms))) s.entries)

  -- One query in front of a commit that ends well or not.
  Ended-sent :
      (i : ℕ) (m : HydratedMutation) (ms : List HydratedMutation) (s : Session) (r : CommitResult)
      (t : Session)
      → is_success (answers i).outcome ≡ true
      → Ended (suc i) ms (sent (answers i) m s) r t
      → Ended i (m ∷ ms) s r t
  Ended-sent i m ms s r t ok h = record {
    committed = rw ok (omega (arith, h.committed));
    success = rw ok (h.success ∙ suc_eq (leading (suc i) (length ms)) (length ms));
    failed_index = h.failed_index;
    log = rw ok (h.log ∙ append_assoc s.log (m.sql ∷ []) _);
    entries = rw ok h.entries;
  }

  Ended-failed :
      (i : ℕ) (m : HydratedMutation) (ms : List HydratedMutation) (s : Session) (error : Text)
      → is_success (answers i).outcome ≡ false
      → Ended i (m ∷ ms) s (failed i error i) (sent (answers i) m s)
  Ended-failed i m ms s error bad = record {
    committed = rw bad (omega arith);
    success = rw bad (ground arith);
    failed_index = refl;
    log = rw bad refl;
    entries = rw bad refl;
  }

  Ended-commit_from :
      (i : ℕ) (ms : List HydratedMutation) (s : Session)
      → let (r, t) = commit_from answers i i ms s in Ended i ms s r t
  unfolding commit_from
  Ended-commit_from i [] s = record {
    committed = omega arith;
    success = refl;
    failed_index = refl;
    log = rw append-nil;
    entries = refl;
  }
  Ended-commit_from i (m ∷ ms) s =
      ended_by (answers i).outcome refl (Ended-commit_from (suc i) ms (sent (answers i) m s))
    where
      ended_by :
          (o : Outcome)
          → (answers i).outcome ≡ o
          → (let (r, t) = commit_from answers (suc i) (suc i) ms (sent (answers i) m s) in
              Ended (suc i) ms (sent (answers i) m s) r t)
          → let (r, t) = commit_from answers i i (m ∷ ms) s in Ended i (m ∷ ms) s r t
      ended_by (response true e) h ih =
          let (r, t) = commit_from answers (suc i) (suc i) ms (sent (answers i) m s) in
          rw (h, commit_from) (Ended-sent i m ms s r t (rw h refl) ih)
      ended_by (response false e) h ih =
          rw (h, commit_from) (Ended-failed i m ms s (or_else e (codes "Query failed")) (rw h refl))
      ended_by (threw e) h ih =
          rw (h, commit_from)
            (Ended-failed i m ms s (or_else e (codes "Unknown error")) (rw h refl))

-- A queue that is emptied is the empty queue.
emptied : (s : Session) → s.entries ≡ [] → s ≡ record s { entries = [] }
emptied s e = λ i. record s { entries = e i }

same_list : (ms : List HydratedMutation) → some [] ≡ some ms → [] ≡ ms
same_list ms h = cc

commit_of_hydrated :
    (answers : ℕ → Answer) (db : Builders) (s : Session) (ms : List HydratedMutation)
    (entries : List MutationEntry)
    → s.entries ≡ entries
    → hydrate_all_mutations db entries ≡ some ms
    → commit_entries answers db s entries ≡ some (commit_from answers 0 0 ms s)
unfolding commit_entries hydrate_all_mutations commit_from
commit_of_hydrated answers db s ms [] e h =
    ap (λ (x : Session). some (done 0, x)) (emptied s e)
    ∙ ap (λ (l : List HydratedMutation). some (commit_from answers 0 0 l s)) (same_list ms h)
commit_of_hydrated answers db s ms (entry ∷ entries) e h = rw (h, commit_entries)

-- A queue that hydrates: the commit returns. With the statements numbered from 0, it has sent them
-- in order up to the first that was not answered well, that one included; it reports how many were
-- answered well before, and the number of the failed one if there is one; it succeeds exactly if
-- all were answered well, and only then the queue is emptied, of what was queued meanwhile too.
pub commit-Ended :
    (answers : ℕ → Answer) (db : Builders) (s : Session) (ms : List HydratedMutation)
    → hydrate_all_mutations db s.entries ≡ some ms
    → (r : CommitResult) × (t : Session) × (commit answers db s ≡ some (r, t))
      × Ended answers 0 ms s r t
unfolding commit
commit-Ended answers db s ms h =
    let (r, t) = commit_from answers 0 0 ms s in
    (r, t, commit_of_hydrated answers db s ms s.entries refl h, Ended-commit_from answers 0 ms s)

-- The target of the entry is not a schema and a table.
abbrev pub is_lost : MutationEntry → Bool
is_lost entry = elim (parse_target entry.target) [ none ↦ true | some place ↦ false ]

-- Whether a queue hydrates, by its targets.
abbrev IsHydratedOr : Builders → List MutationEntry → Type 0
IsHydratedOr db entries =
    ((any is_lost entries ≡ true) × (hydrate_all_mutations db entries ≡ none))
    ⊎ ((any is_lost entries ≡ false)
        × (ms : List HydratedMutation) × (hydrate_all_mutations db entries ≡ some ms))

hydrate_mutation_cases :
    (db : Builders) (entry : MutationEntry)
    → ((is_lost entry ≡ true) × (hydrate_mutation db entry ≡ none))
      ⊎ ((is_lost entry ≡ false) × (m : HydratedMutation) × (hydrate_mutation db entry ≡ some m))
unfolding hydrate_mutation
hydrate_mutation_cases db entry = elim (Option-cases (parse_target entry.target)) [
  | inl e ↦ inl (rw (e, is_lost) refl, rw (e, hydrate_mutation) refl)
  | inr ((schema, table), e) ↦ inr (
    rw (e, is_lost) refl,
    hydrate_payload db entry schema table entry.payload,
    rw (e, hydrate_mutation) refl,
  )
]

hydrate_all_cases : (db : Builders) (entries : List MutationEntry) → IsHydratedOr db entries
unfolding hydrate_all_mutations
hydrate_all_cases db [] = inr (refl, [], refl)
hydrate_all_cases db (entry ∷ entries) = elim (hydrate_mutation_cases db entry) [
  | inl (lost, e) ↦ inl (rw lost refl, rw (e, hydrate_all_mutations) refl)
  | inr (kept, m, e) ↦ elim (hydrate_all_cases db entries) [
    | inl (lost, f) ↦ inl (rw (kept, lost) refl, rw (e, f, hydrate_all_mutations) refl)
    | inr (all, ms, f) ↦ inr (rw (kept, all) refl, m ∷ ms, rw (e, f, hydrate_all_mutations) refl)
  ]
]

commit_entries_rejected :
    (answers : ℕ → Answer) (db : Builders) (s : Session) (entries : List MutationEntry)
    → hydrate_all_mutations db entries ≡ none
    → commit_entries answers db s entries ≡ none
unfolding commit_entries
commit_entries_rejected answers db s [] h = unfold hydrate_all_mutations in cc h
commit_entries_rejected answers db s (entry ∷ entries) h = rw (h, commit_entries)

-- A commit is rejected before anything is sent exactly if the target of some queued entry is not a
-- schema and a table, whichever dialect builds the statements; every other commit ends with a
-- result, whatever the database answers.
pub commit_rejected :
    (answers : ℕ → Answer) (db : Builders) (s : Session)
    → ((any is_lost s.entries ≡ true) × (commit answers db s ≡ none))
      ⊎ ((any is_lost s.entries ≡ false)
          × (r : CommitResult) × (t : Session) × (commit answers db s ≡ some (r, t)))
unfolding commit
commit_rejected answers db s = elim (hydrate_all_cases db s.entries) [
  | inl (lost, h) ↦ inl (lost, commit_entries_rejected answers db s s.entries h)
  | inr (kept, ms, h) ↦ let (r, t, e, ended) = commit-Ended answers db s ms h in inr (kept, r, t, e)
]

acted_quiet :
    (answers : ℕ → Answer) (i n : ℕ) (entries : List MutationEntry)
    → ((k : ℕ) → (answers k).meanwhile ≡ [])
    → acted answers i n entries ≡ entries
unfolding act_all
acted_quiet answers i zero entries quiet = refl
acted_quiet answers i (suc n) entries quiet =
    rw (quiet i) (acted_quiet answers (suc i) n entries quiet)

-- A commit that fails keeps in the queue what it has already sent: if the user does nothing, the
-- next commit sends the same statements again from the first one on.
pub commit_again :
    (answers again : ℕ → Answer) (db : Builders) (s : Session) (ms : List HydratedMutation)
    → hydrate_all_mutations db s.entries ≡ some ms
    → ((k : ℕ) → (answers k).meanwhile ≡ [])
    → leading answers 0 (length ms) < length ms
    → (r : CommitResult) × (t : Session) × (r' : CommitResult) × (u : Session) × (commit answers db
          s
        ≡ some (r, t))
      × (commit again db t ≡ some (r', u))
      × (u.log
          ≡ (s.log ++ map (λ m. m.sql) (take (suc (leading answers 0 (length ms))) ms))
            ++ map (λ m. m.sql) (take (suc (leading again 0 (length ms))) ms))
commit_again answers again db s ms h quiet fails =
    let (r, t, first, e) = commit-Ended answers db s ms h in
    let bad : r.success ≡ false = e.success ∙ ground arith in
    let kept : t.entries ≡ s.entries =
      e.entries
      ∙ rw bad (acted_quiet answers 0 (suc (leading answers 0 (length ms))) s.entries quiet) in
    let (r', u, second, e') = commit-Ended again db t ms (ap (hydrate_all_mutations db) kept ∙ h) in
    (
      r,
      t,
      r',
      u,
      first,
      second,
      e'.log ∙ ap (λ l. l ++ map (λ m. m.sql) (take (suc (leading again 0 (length ms))) ms)) e.log,
    )
