-- ===== src/NewTable/Submitted.antt =====
-- What the submission of a form does, whatever the database answers.
use vaultsql.Prelude.{
  ℕ, is_empty, suc, ◌+◌, Bool, true, false, not, ◌&&◌, ◌||◌, List, [], ◌∷◌, map, Option, none, some,
  ◌≡◌, refl, ap, ◌∙◌, arith, Text, trim, truthy, keep, length, take, ◌==◌, ltb, Bool-cases, inl,
  inr, or_else, if◌then◌else◌,
}
use vaultsql.Queue.Commit.{Outcome, response, threw}
use vaultsql.Queue.Committed.{leading, is_success}
use vaultsql.NewTable.Form.{
  FormForeignKey, NewTableForm, TableBuilders, column_definitions, is_valid, schema_of, sql_preview,
}
use vaultsql.NewTable.Submit.{
  Effect, ran, reloaded, closed, opened, is_complete, invalid_preview, foreign_key_sql,
  run_foreign_keys, run_all, handle_submit,
}

abbrev pub queries_of : List Effect → List Text
queries_of [] = []
queries_of (ran sql ∷ es) = sql ∷ queries_of es
queries_of (reloaded s ∷ es) = queries_of es
queries_of (closed t ∷ es) = queries_of es
queries_of (opened s t ∷ es) = queries_of es

-- The tables whose tabs are opened: schema and name of each.
abbrev pub opened_tables : List Effect → List (Text × Text)
opened_tables [] = []
opened_tables (ran sql ∷ es) = opened_tables es
opened_tables (reloaded s ∷ es) = opened_tables es
opened_tables (closed t ∷ es) = opened_tables es
opened_tables (opened s t ∷ es) = (s, t) ∷ opened_tables es

-- The tabs that are closed.
abbrev pub closed_tabs : List Effect → List Text
closed_tabs [] = []
closed_tabs (ran sql ∷ es) = closed_tabs es
closed_tabs (reloaded s ∷ es) = closed_tabs es
closed_tabs (closed t ∷ es) = t ∷ closed_tabs es
closed_tabs (opened s t ∷ es) = closed_tabs es

abbrev pub reloads : List Effect → Bool
reloads [] = false
reloads (ran sql ∷ es) = reloads es
reloads (reloaded s ∷ es) = true
reloads (closed t ∷ es) = reloads es
reloads (opened s t ∷ es) = reloads es

abbrev pub is_none : Option Text → Bool
is_none none = true
is_none (some e) = false

abbrev pub is_response : Outcome → Bool
is_response (response ok e) = true
is_response (threw e) = false

-- The statements of a form: the new table, and its complete foreign keys.
abbrev pub statements : TableBuilders → NewTableForm → Text → List Text
statements db f sql = sql ∷ map (foreign_key_sql db f) (keep is_complete f.foreign_keys)

-- A form that can be sent.
abbrev pub can_submit : TableBuilders → NewTableForm → Bool
can_submit db f = is_valid f && not (invalid_preview (sql_preview db f))

-- The table that a form describes.
abbrev pub new_table : NewTableForm → Text × Text
new_table f = (schema_of f, trim f.table_name)

module _ {ℓ} {A : Type ℓ} where
  -- The list of this element if the test holds.
  abbrev pub only_if : Bool → A → List A
  only_if b x = if b then x ∷ [] else []

  only_if_failed : (b : Bool) (x : A) → b ≡ false → [] ≡ only_if b x
  only_if_failed b x e = rw e refl

module _ (tab_id : Text) (f : NewTableForm) (answers : ℕ → Outcome) where
  -- How many of n queries, numbered from i, succeed before the first that does not.
  abbrev pub succeeded : ℕ → ℕ → ℕ
  succeeded = leading (λ k. record { outcome = answers k; meanwhile = [] })

  -- The tables are loaded again if all of n queries succeeded, or the one after the successful ones,
  -- which is not the first, was answered.
  abbrev pub reloads_after : ℕ → ℕ → ℕ → Bool
  reloads_after i k n = (k == n) || (ltb 0 (i + k) && is_response (answers (i + k)))

  reloads_after-next : (i k n : ℕ) → reloads_after (suc i) k n ≡ reloads_after i (suc k) (suc n)
  reloads_after-next i k n =
      let moved : suc i + k ≡ i + suc k = omega arith in
      ap (λ x. (k == n) || (ltb 0 x && is_response (answers x))) moved ∙ ground arith

  reloads_after-first : (i n : ℕ) → (ltb 0 i && is_response (answers i)) ≡ reloads_after i 0 (suc n)
  reloads_after-first i n = let same_place : i + 0 ≡ i = omega arith in rw same_place (ground arith)

  -- The queries numbered from i were run like this.
  pub record IsRun (i : ℕ) (sqls : List Text) (error : Option Text) (effects : List Effect)
      : Type 0 where
    pub queries : queries_of effects ≡ take (suc (succeeded i (length sqls))) sqls
    pub no_error : is_none error ≡ (succeeded i (length sqls) == length sqls)
    pub opening :
        opened_tables effects ≡ only_if (succeeded i (length sqls) == length sqls) (new_table f)
    pub closing : closed_tabs effects ≡ only_if (succeeded i (length sqls) == length sqls) tab_id
    pub reloading : reloads effects ≡ reloads_after i (succeeded i (length sqls)) (length sqls)

  IsRun-stopped :
      (i : ℕ) (sql : Text) (sqls : List Text) (message : Text) (effects : List Effect)
      → is_success (answers i) ≡ false
      → queries_of effects ≡ []
      → opened_tables effects ≡ []
      → closed_tabs effects ≡ []
      → reloads effects ≡ (ltb 0 i && is_response (answers i))
      → IsRun i (sql ∷ sqls) (some message) (ran sql ∷ effects)
  IsRun-stopped i sql sqls message effects bad q o c r = record {
    queries = rw (bad, q) refl;
    no_error = rw bad (ground arith);
    opening = o ∙ only_if_failed _ (new_table f) (rw bad (ground arith));
    closing = c ∙ only_if_failed _ tab_id (rw bad (ground arith));
    reloading = rw (bad, r) (reloads_after-first i (length sqls));
  }

  IsRun-next :
      (i : ℕ) (sql : Text) (sqls : List Text) (error : Option Text) (effects : List Effect)
      → is_success (answers i) ≡ true
      → IsRun (suc i) sqls error effects
      → IsRun i (sql ∷ sqls) error (ran sql ∷ effects)
  IsRun-next i sql sqls error effects ok v = record {
    queries = rw ok (ap (λ l. sql ∷ l) v.queries);
    no_error = rw ok (v.no_error ∙ ground arith);
    opening = rw ok (v.opening ∙ ap (λ b. only_if b (new_table f)) (ground arith));
    closing = rw ok (v.closing ∙ ap (λ b. only_if b tab_id) (ground arith));
    reloading =
        rw ok (v.reloading ∙ reloads_after-next i (succeeded (suc i) (length sqls)) (length sqls));
  }

module _ (db : TableBuilders) (tab_id : Text) (answers : ℕ → Outcome) where
  IsRun-run_foreign_keys :
      (f : NewTableForm) (n : ℕ) (fks : List FormForeignKey)
      → let (error, effects) = run_foreign_keys db tab_id answers f (suc n) fks in
        IsRun tab_id f answers
          (suc n)
          (map (foreign_key_sql db f) (keep is_complete fks))
          error
          effects
  unfolding run_foreign_keys
  IsRun-run_foreign_keys f n [] = record {
    queries = refl;
    no_error = refl;
    opening = refl;
    closing = refl;
    reloading = ground arith;
  }
  IsRun-run_foreign_keys f n (fk ∷ fks) = elim (Bool-cases (is_complete fk)) [
    | inr e ↦ rw (e, run_foreign_keys) (IsRun-run_foreign_keys f n fks)
    | inl e ↦ answered (answers (suc n)) refl e (IsRun-run_foreign_keys f (suc n) fks)
  ]
    where
      sql : Text
      sql = foreign_key_sql db f fk

      later : List Text
      later = map (foreign_key_sql db f) (keep is_complete fks)

      answered :
          (o : Outcome)
          → answers (suc n) ≡ o
          → is_complete fk ≡ true
          → (let (error, effects) = run_foreign_keys db tab_id answers f (suc (suc n)) fks in
              IsRun tab_id f answers (suc (suc n)) later error effects)
          → let (error, effects) = run_foreign_keys db tab_id answers f (suc n) (fk ∷ fks) in
            IsRun tab_id f answers
              (suc n)
              (map (foreign_key_sql db f) (keep is_complete (fk ∷ fks)))
              error
              effects
      answered (response true m) h e ih =
          rw (e, h, run_foreign_keys)
            (IsRun-next tab_id f answers (suc n) sql later _ _ (rw h refl) ih)
      answered (response false m) h e ih =
          rw (e, h, run_foreign_keys)
            (IsRun-stopped tab_id f answers (suc n) sql later _ _ (rw h refl) refl refl refl
              (rw h (ground arith)))
      answered (threw m) h e ih =
          rw (e, h, run_foreign_keys)
            (IsRun-stopped tab_id f answers (suc n) sql later _ _ (rw h refl) refl refl refl
              (rw h (ground arith)))

  IsRun-run_all :
      (f : NewTableForm) (sql : Text)
      → let (error, effects) = run_all db tab_id answers f sql in
        IsRun tab_id f answers 0 (statements db f sql) error effects
  unfolding run_all
  IsRun-run_all f sql = answered (answers 0) refl
    where
      later : List Text
      later = map (foreign_key_sql db f) (keep is_complete f.foreign_keys)

      answered :
          (o : Outcome)
          → answers 0 ≡ o
          → let (error, effects) = run_all db tab_id answers f sql in
            IsRun tab_id f answers 0 (statements db f sql) error effects
      answered (response true m) h = rw h (
          IsRun-next tab_id f answers 0 sql later _ _ (rw h refl)
            (IsRun-run_foreign_keys f 0 f.foreign_keys))
      answered (response false m) h =
          rw h (
            IsRun-stopped tab_id f answers 0 sql later _ _ (rw h refl) refl refl refl
              (ground arith))
      answered (threw m) h =
          rw h (
            IsRun-stopped tab_id f answers 0 sql later _ _ (rw h refl) refl refl refl
              (ground arith))

  submit_run :
      (f : NewTableForm)
      → can_submit db f ≡ true
      → handle_submit db tab_id answers f ≡ (
          let (error, effects) = run_all db tab_id answers f (or_else (sql_preview db f) []) in
          (record f { error = error; is_submitting = false }, effects))
  unfolding handle_submit is_valid
  submit_run f h =
      let p : truthy (trim f.table_name) ≡ true = ground arith in
      let q : is_empty (column_definitions f.columns) ≡ false = ground arith in
      let r : invalid_preview (sql_preview db f) ≡ false = ground arith in rw (r, p, q) refl

  -- Let a form be submitted that has a table name and a column, and whose statement can be built.
  -- The queries that are run are its statements, the new table first and then each complete foreign
  -- key, in order, up to the first that fails. If none fails, the form shows no error, its tab is
  -- closed and one table is opened, by the schema and the trimmed name of the form; else an error is
  -- shown, and no tab is closed or opened. The tables are loaded again if none fails or a foreign key
  -- is answered with a failure. The form is not left as submitting.
  pub handle_submit_lem :
      (f : NewTableForm)
      → can_submit db f ≡ true
      → let (g, effects) = handle_submit db tab_id answers f in
        IsRun tab_id f answers 0 (statements db f (or_else (sql_preview db f) [])) g.error effects
        × (g.is_submitting ≡ false)
  handle_submit_lem f h =
      rw (submit_run f h) (IsRun-run_all f (or_else (sql_preview db f) []), refl)
