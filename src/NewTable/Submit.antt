-- ===== src/NewTable/Submit.antt =====
-- handleSubmit of frontend/src/workbench/tabs/NewTableTab/hooks/useNewTableForm.ts. The form is the
-- one of the render in which the user submitted. What the handler does to the rest of the program is
-- a list of effects; the n-th query is answered by `answers n`.
use vaultsql.Prelude.{
  ℕ, is_empty, suc, Bool, true, false, not, ◌&&◌, ◌||◌, List, [], ◌∷◌, ◌++◌, Option, none, some,
  Text, codes, trim, truthy, or_else, starts_with, if◌then◌else◌,
}
use vaultsql.Queue.Commit.{Outcome, response, threw}
use vaultsql.NewTable.Form.{
  FormForeignKey, NewTableForm, TableBuilders, column_definitions, schema_of, sql_preview,
}

pub data Effect : Type 0 where
  ran : Text → Effect
  reloaded : Text → Effect
  closed : Text → Effect
  opened : Text → Text → Effect

abbrev pub is_complete : FormForeignKey → Bool
is_complete fk =
    truthy fk.column && truthy fk.ref_schema && truthy fk.ref_table && truthy fk.ref_column

-- The table stands: its tab is opened in place of the form's.
abbrev pub finish : Text → NewTableForm → List Effect
finish tab_id f =
    reloaded (schema_of f) ∷ closed tab_id ∷ opened (schema_of f) (trim f.table_name) ∷ []

abbrev pub with_effect : Effect → Option Text × List Effect → Option Text × List Effect
with_effect e (error, effects) = (error, e ∷ effects)

abbrev pub invalid_preview : Option Text → Bool
invalid_preview none = true
invalid_preview (some sql) = not (truthy sql) || starts_with (codes "--") sql

module _ (db : TableBuilders) where
  abbrev pub foreign_key_sql : NewTableForm → FormForeignKey → Text
  foreign_key_sql f fk =
      (db.build_add_foreign_key_query (record {
        schema = schema_of f;
        table = trim f.table_name;
        column = fk.column;
        constraint_name = none;
        ref_schema = fk.ref_schema;
        ref_table = fk.ref_table;
        ref_column = fk.ref_column;
        on_delete = some fk.on_delete;
        on_update = some fk.on_update;
      })).sql

module _ (db : TableBuilders) (tab_id : Text) (answers : ℕ → Outcome) where
  -- The error that is shown at the end, and the effects.
  unfoldable pub run_foreign_keys :
      NewTableForm → ℕ → List FormForeignKey → Option Text × List Effect
  run_foreign_keys f n [] = (none, finish tab_id f)
  run_foreign_keys f n (fk ∷ fks) = elim (is_complete fk) [
    | false ↦ run_foreign_keys f n fks
    | true ↦ elim (answers n) [
      | response true e ↦
          with_effect (ran (foreign_key_sql db f fk)) (run_foreign_keys f (suc n) fks)
      | response false e ↦ (
        some (codes "Table created but foreign key failed: " ++ or_else e (codes "undefined")),
        ran (foreign_key_sql db f fk) ∷ reloaded (schema_of f) ∷ [],
      )
      | threw e ↦ (some (or_else e (codes "Unknown error")), ran (foreign_key_sql db f fk) ∷ [])
    ]
  ]

  unfoldable pub run_all : NewTableForm → Text → Option Text × List Effect
  unfolding run_foreign_keys
  run_all f sql = with_effect (ran sql) (elim (answers 0) [
    | response true e ↦ run_foreign_keys f 1 f.foreign_keys
    | response false e ↦ (some (or_else e (codes "Failed to create table")), [])
    | threw e ↦ (some (or_else e (codes "Unknown error")), [])
  ])

  abbrev pub ended : NewTableForm → Option Text × List Effect → NewTableForm × List Effect
  ended f (error, effects) = (record f { error = error; is_submitting = false }, effects)

  abbrev pub rejected : Text → NewTableForm → NewTableForm × List Effect
  rejected message f = (record f { error = some message }, [])

  unfoldable pub handle_submit : NewTableForm → NewTableForm × List Effect
  unfolding run_all sql_preview column_definitions
  handle_submit f =
      let preview = sql_preview db f in
      if not (truthy (trim f.table_name))
      then rejected (codes "Table name is required") f
      else if is_empty (column_definitions f.columns)
      then rejected (codes "At least one column is required") f
      else if invalid_preview preview
      then rejected (codes "Invalid table configuration") f
      else ended f (run_all f (or_else preview []))
