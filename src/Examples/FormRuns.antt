-- ===== src/Examples/FormRuns.antt =====
-- A form with one column and one complete foreign key; the new table succeeds and the key fails.
use vaultsql.Prelude.{ℕ, zero, suc, true, false, [], ◌∷◌, none, some, ◌≡◌, refl, codes, or_else}
use vaultsql.Database.Ddl.{no_action}
use vaultsql.Queue.Commit.{Outcome, response}
use vaultsql.Postgres.Ddl.{build_create_table_query, build_add_foreign_key_query}
use vaultsql.NewTable.Form.{
  FormColumn, FormForeignKey, NewTableForm, TableBuilders, sql_preview, is_valid,
  column_definitions,
}
use vaultsql.NewTable.Submit.{handle_submit}
use vaultsql.NewTable.Submitted.{can_submit, IsRun, statements, handle_submit_lem}

abbrev builders : TableBuilders
builders = record {
  build_create_table_query = λ p. some (build_create_table_query p);
  build_add_foreign_key_query = build_add_foreign_key_query;
}

abbrev owner : FormColumn
owner = record {
  id = codes "c1";
  name = codes " owner ";
  data_type = codes "INTEGER";
  primary_key = false;
  not_null = true;
  unique = false;
  default_value = [];
}

abbrev owner_key : FormForeignKey
owner_key = record {
  id = codes "f1";
  column = codes "owner";
  ref_schema = codes "public";
  ref_table = codes "users";
  ref_column = codes "id";
  on_delete = no_action;
  on_update = no_action;
}

abbrev pets : NewTableForm
pets = record {
  schema = codes "public";
  table_name = codes "pets";
  columns = owner ∷ [];
  indexes = [];
  foreign_keys = owner_key ∷ [];
  indexes_open = false;
  foreign_keys_open = true;
  is_submitting = false;
  error = none;
}

abbrev pets_answers : ℕ → Outcome
pets_answers zero = response true none
pets_answers (suc n) = response false (some (codes "no such table"))

pets_sendable : can_submit builders pets ≡ true
unfolding is_valid sql_preview column_definitions build_create_table_query
    vaultsql.Sql.Columns.build_create_table_query
pets_sendable = refl

handle_submit_lem_example :
    let (g, effects) = handle_submit builders (codes "t") pets_answers pets in
    IsRun
      (codes "t")
      pets
      pets_answers
      0
      (statements builders pets (or_else (sql_preview builders pets) []))
      g.error
      effects
    × (g.is_submitting ≡ false)
handle_submit_lem_example = handle_submit_lem builders (codes "t") pets_answers pets pets_sendable
