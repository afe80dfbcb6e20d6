-- ===== src/NewTable/Form.antt =====
-- frontend/src/workbench/tabs/NewTableTab/types.ts, and the state of hooks/useNewTableForm.ts with
-- what is computed from it. The reference lists that the form loads are kept apart from its fields.
use vaultsql.Prelude.{
  Bool, true, false, not, ◌&&◌, List, [], ◌∷◌, map, Option, none, some, Text, codes, trim, truthy,
  is_empty, keep, if◌then◌else◌,
}
use vaultsql.Database.Ddl.{
  ForeignKeyAction, no_action, ColumnDefinition, IndexDefinition, CreateTableParams, DdlResult,
  AddForeignKeyParams,
}

pub record FormColumn : Type 0 where
  pub id : Text
  pub name : Text
  pub data_type : Text
  pub primary_key : Bool
  pub not_null : Bool
  pub unique : Bool
  pub default_value : Text

pub record FormIndex : Type 0 where
  pub id : Text
  pub name : Text
  pub columns : List Text
  pub unique : Bool

pub record FormForeignKey : Type 0 where
  pub id : Text
  pub column : Text
  pub ref_schema : Text
  pub ref_table : Text
  pub ref_column : Text
  pub on_delete : ForeignKeyAction
  pub on_update : ForeignKeyAction

pub record NewTableForm : Type 0 where
  pub schema : Text
  pub table_name : Text
  pub columns : List FormColumn
  pub indexes : List FormIndex
  pub foreign_keys : List FormForeignKey
  pub indexes_open : Bool
  pub foreign_keys_open : Bool
  pub is_submitting : Bool
  pub error : Option Text

unfoldable pub create_empty_column : Text → FormColumn
create_empty_column id = record {
  id = id;
  name = [];
  data_type = codes "INTEGER";
  primary_key = false;
  not_null = false;
  unique = false;
  default_value = [];
}

unfoldable pub create_empty_index : Text → FormIndex
create_empty_index id = record { id = id; name = []; columns = []; unique = false }

unfoldable pub create_empty_foreign_key : Text → FormForeignKey
create_empty_foreign_key id = record {
  id = id;
  column = [];
  ref_schema = [];
  ref_table = [];
  ref_column = [];
  on_delete = no_action;
  on_update = no_action;
}

-- The schema is the tab's, or public.
unfoldable pub new_table_form : Option Text → Text → NewTableForm
unfolding create_empty_column
new_table_form schema id = record {
  schema = elim schema [ none ↦ codes "public" | some s ↦ s ];
  table_name = [];
  columns = create_empty_column id ∷ [];
  indexes = [];
  foreign_keys = [];
  indexes_open = false;
  foreign_keys_open = false;
  is_submitting = false;
  error = none;
}

-- `text || undefined`
abbrev pub text_there : Text → Option Text
text_there [] = none
text_there (c ∷ t) = some (c ∷ t)

abbrev pub is_named : FormColumn → Bool
is_named col = truthy (trim col.name)

abbrev pub column_definition : FormColumn → ColumnDefinition
column_definition col = record {
  name = trim col.name;
  data_type = col.data_type;
  nullable = some (not col.not_null);
  default_value = elim (text_there (trim col.default_value)) [
    | none ↦ none
    | some t ↦ some (some t)
  ];
  primary_key = col.primary_key;
  unique = col.unique;
  references = none;
  check = none;
}

unfoldable pub column_definitions : List FormColumn → List ColumnDefinition
column_definitions columns = map column_definition (keep is_named columns)

abbrev pub has_columns : FormIndex → Bool
has_columns idx = elim idx.columns [ [] ↦ false | c ∷ cs ↦ true ]

unfoldable pub index_definitions : List FormIndex → List IndexDefinition
index_definitions indexes =
    map
      (λ idx. record {
        name = text_there (trim idx.name);
        columns = idx.columns;
        unique = idx.unique;
        type = none;
      })
      (keep has_columns indexes)

unfoldable pub available_columns : List FormColumn → List Text
available_columns columns = map (λ col. trim col.name) (keep is_named columns)

-- `schema || 'public'`
abbrev pub schema_of : NewTableForm → Text
schema_of f = if truthy f.schema then f.schema else codes "public"

unfoldable pub is_valid : NewTableForm → Bool
unfolding column_definitions
is_valid f = truthy (trim f.table_name) && not (is_empty (column_definitions f.columns))

-- The builders of the database, by name. `none` is an exception of the first.
pub record TableBuilders : Type 0 where
  pub build_create_table_query : CreateTableParams → Option DdlResult
  pub build_add_foreign_key_query : AddForeignKeyParams → DdlResult

module _ (db : TableBuilders) where
  abbrev pub create_params : NewTableForm → CreateTableParams
  create_params f = record {
    schema = schema_of f;
    table = trim f.table_name;
    columns = column_definitions f.columns;
    indexes =
        if is_empty (index_definitions f.indexes) then none else some (index_definitions f.indexes);
    if_not_exists = false;
  }

  abbrev pub preview_of : Option DdlResult → Text
  preview_of none = codes "-- Invalid configuration"
  preview_of (some r) = r.sql

  unfoldable pub sql_preview : NewTableForm → Option Text
  unfolding is_valid column_definitions index_definitions
  sql_preview f =
      if is_valid f then some (preview_of (db.build_create_table_query (create_params f))) else none
