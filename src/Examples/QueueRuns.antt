-- ===== src/Examples/QueueRuns.antt =====
-- A queue of a deletion and of an added column, committed.
use vaultsql.Prelude.{
  ℕ, zero, suc, List, [], ◌∷◌, ◌++◌, map, ◌||◌, none, some, ◌≡◌, ◌↔◌, inl, inr, refl, true, false,
  codes, any, ◌⊎◌, has, length, take, arith,
}
use vaultsql.Queue.Entries.{
  MutationEntry, HydratedMutation, delete_row, drop_column, create_target, parse_target,
  hydrate_all_mutations, hydrate_mutation, hydrate_payload,
}
use vaultsql.Queue.Commit.{Answer, response, Session, CommitResult, commit}
use vaultsql.Queue.Committed.{Ended, leading, is_lost, commit-Ended, commit_rejected, commit_again}
use vaultsql.Queue.Statements.{builders, AllHydrated, hydrate_all_mutations-AllHydrated}
use vaultsql.Queue.Target.{parse-create_iff}
use vaultsql.Postgres.Rows.{build_delete_query}
use vaultsql.Postgres.Ddl.{build_drop_column_query}
use vaultsql.Database.Mutations.{delete}
use vaultsql.Database.Ddl.{alter_table}
use vaultsql.Examples.Data.{key}

abbrev deletion : MutationEntry
deletion = record {
  id = codes "1";
  target = codes "public.users";
  payload = delete_row key;
  created_at = 0;
}

abbrev removal : MutationEntry
removal = record {
  id = codes "2";
  target = codes "public.users";
  payload = drop_column (codes "age") false;
  created_at = 1;
}

abbrev session : List MutationEntry → Session
session entries = record { entries = entries; log = [] }

abbrev statements : List HydratedMutation
statements =
    record {
      entry = deletion;
      sql =
          (build_delete_query
            (record { schema = codes "public"; table = codes "users"; primary_key = key })).sql;
      operation = inl delete;
    }
    ∷ record {
      entry = removal;
      sql =
          (build_drop_column_query (record {
            schema = codes "public";
            table = codes "users";
            column = codes "age";
            cascade = false;
          })).sql;
      operation = inr alter_table;
    }
    ∷ []

abbrev start : Session
start = session (deletion ∷ removal ∷ [])

hydrated : hydrate_all_mutations builders start.entries ≡ some statements
unfolding hydrate_all_mutations hydrate_mutation hydrate_payload parse_target build_delete_query
    build_drop_column_query vaultsql.Sql.Rows.build_delete_query
hydrated = refl

hydrate_all_mutations-AllHydrated_example : AllHydrated start.entries statements
hydrate_all_mutations-AllHydrated_example =
    hydrate_all_mutations-AllHydrated start.entries statements (refl, (tt, tt)) hydrated

-- The second statement fails.
abbrev answers : ℕ → Answer
answers zero = record { outcome = response true none; meanwhile = [] }
answers (suc n) = record { outcome = response false none; meanwhile = [] }

quiet : (k : ℕ) → (answers k).meanwhile ≡ []
quiet zero = refl
quiet (suc k) = refl

commit-Ended_example :
    (r : CommitResult) × (t : Session) × (commit answers builders start ≡ some (r, t))
    × Ended answers 0 statements start r t
commit-Ended_example = commit-Ended answers builders start statements hydrated

commit_again_example :
    (r : CommitResult) × (t : Session) × (r' : CommitResult) × (u : Session) × (commit answers
        builders start
      ≡ some (r, t))
    × (commit answers builders t ≡ some (r', u))
    × (u.log
        ≡ (start.log
            ++ map (λ m. m.sql) (take (suc (leading answers 0 (length statements))) statements))
          ++ map (λ m. m.sql) (take (suc (leading answers 0 (length statements))) statements))
commit_again_example =
    commit_again answers answers builders start statements hydrated quiet (omega arith)

abbrev dotted_session : Session
dotted_session = session (record removal { target = codes "public.us.ers" } ∷ [])

commit_rejected_example :
    ((any is_lost dotted_session.entries ≡ true) × (commit answers builders dotted_session ≡ none))
    ⊎ ((any is_lost dotted_session.entries ≡ false)
        × (r : CommitResult) × (t : Session) × (commit answers builders dotted_session
            ≡ some (r, t)))
commit_rejected_example = commit_rejected answers builders dotted_session

parse-create_iff_example :
    ((parse_target (create_target (codes "public") (codes "us.ers"))
        ≡ some (codes "public", codes "us.ers"))
      ↔ ((has b'.' (codes "public") ≡ false) × (has b'.' (codes "us.ers") ≡ false)))
    × ((has b'.' (codes "public") || has b'.' (codes "us.ers")) ≡ true
        → parse_target (create_target (codes "public") (codes "us.ers")) ≡ none)
parse-create_iff_example = parse-create_iff (codes "public") (codes "us.ers")
