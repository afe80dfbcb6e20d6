-- ===== src/Examples/Data.antt =====
-- Parameters whose names and values hold quotation marks.
use vaultsql.Prelude.{Bool, true, false, List, [], ◌∷◌, none, some, pos, Text, codes}
use vaultsql.Database.Filters.{FilterInput, FilterOperator, eq, icontains, in_list, any_of}
use vaultsql.Database.Queries.{desc, TableQueryParams, EstimatedCountParams}
use vaultsql.Database.Mutations.{
  Value, string, number, PrimaryKeyValue, MutationColumnValue, InsertParams, UpdateParams,
  DeleteParams,
}
use vaultsql.Database.Ddl.{
  cascade, set_null, btree, IndexDefinition, RenameTableParams, DropColumnParams,
  RenameColumnParams, CreateIndexParams, DropIndexParams, AddForeignKeyParams, DropForeignKeyParams,
}

abbrev pub schema_name : Text
schema_name = codes "pub'lic"

abbrev pub table_text : Text
table_text = codes "us`er\"s"

abbrev filter : Text → FilterOperator → Text → FilterInput
filter column operator value = record { column = column; operator = operator; value = value }

abbrev pub some_filters : List FilterInput
some_filters =
    filter (codes "na\"me") eq (codes "O'Brien\\")
    ∷ filter (codes "note") icontains (codes "x")
    ∷ filter (codes "id") in_list (codes "1, ,2")
    ∷ []

abbrev pub params : TableQueryParams
params = record {
  schema = schema_name;
  table = table_text;
  columns = some (codes "id" ∷ codes "name" ∷ []);
  filters = some some_filters;
  raw_where = none;
  filter_mode = some any_of;
  sort = some (record { column = codes "id"; direction = desc } ∷ []);
  limit = some (pos 200);
  offset = some (pos 0);
}

abbrev pub counted : EstimatedCountParams
counted = record { schema = schema_name; table = table_text; filters = some some_filters }

abbrev cell : Text → Value → Bool → MutationColumnValue
cell column value use_default = record {
  column = column;
  value = value;
  is_null = false;
  use_default = use_default;
}

abbrev pub cells : List MutationColumnValue
cells =
    cell (codes "name") (string (codes "O'Brien")) false
    ∷ cell (codes "id") (number (codes "1")) true
    ∷ cell (codes "age") (number (codes "42")) false
    ∷ []

abbrev pub key : PrimaryKeyValue
key = record { column = codes "id"; value = number (codes "7") }

abbrev pub inserted : InsertParams
inserted = record { schema = schema_name; table = table_text; values = cells }

abbrev pub updated : UpdateParams
updated = record { schema = schema_name; table = table_text; values = cells; primary_key = key }

abbrev pub deleted : DeleteParams
deleted = record { schema = schema_name; table = table_text; primary_key = key }

abbrev pub index_dropped : DropIndexParams
index_dropped = record {
  schema = schema_name;
  index_name = codes "idx";
  table = some table_text;
  if_exists = true;
  cascade = false;
}

abbrev pub renamed : RenameTableParams
renamed = record { schema = schema_name; table = table_text; new_name = codes "people" }

abbrev pub column_dropped : DropColumnParams
column_dropped = record {
  schema = schema_name;
  table = table_text;
  column = codes "age";
  cascade = true;
}

abbrev pub column_renamed : RenameColumnParams
column_renamed = record {
  schema = schema_name;
  table = table_text;
  column = codes "age";
  new_name = codes "years";
}

abbrev index : IndexDefinition
index = record {
  name = none;
  columns = codes "name" ∷ codes "age" ∷ [];
  unique = true;
  type = some btree;
}

abbrev pub index_created : CreateIndexParams
index_created = record {
  schema = schema_name;
  table = table_text;
  index = index;
  if_not_exists = true;
}

abbrev pub key_added : AddForeignKeyParams
key_added = record {
  schema = schema_name;
  table = table_text;
  column = codes "team_id";
  constraint_name = none;
  ref_schema = schema_name;
  ref_table = codes "teams";
  ref_column = codes "id";
  on_delete = some cascade;
  on_update = some set_null;
}

abbrev pub key_dropped : DropForeignKeyParams
key_dropped = record {
  schema = schema_name;
  table = table_text;
  constraint_name = codes "fk";
  cascade = false;
}
