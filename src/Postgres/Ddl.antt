-- ===== src/Postgres/Ddl.antt =====
-- frontend/src/workbench/lib/databases/postgres/ddl.ts. What it shares with MySQL's builder is in
-- Sql/Columns.antt.
use vaultsql.Prelude.{
  Bool, true, false, List, [], ◌∷◌, ◌++◌, map, Option, none, some, Text, codes, concat, join,
  or_else, if◌then◌else◌,
}
use vaultsql.Database.Ddl.{
  IndexType, btree, hash, gin, gist, brin, IndexDefinition, DdlResult, alter_table, drop_table,
  truncate_table, create_index, drop_index, CreateTableParams, DropTableParams, TruncateTableParams,
  RenameTableParams, AddColumnParams, DropColumnParams, RenameColumnParams, AlterColumnParams,
  CreateIndexParams, DropIndexParams, AddForeignKeyParams, DropForeignKeyParams,
}
use vaultsql.Sql.Clauses.{table_name}
use vaultsql.Sql.Columns
use vaultsql.Sql.Columns.{name_or, generate_index_name}
use vaultsql.Postgres.Quote.{quote_identifier, quoter}

abbrev pub index_type : IndexType → Text
index_type btree = codes "btree"
index_type hash = codes "hash"
index_type gin = codes "gin"
index_type gist = codes "gist"
index_type brin = codes "brin"

abbrev pub using_part : Option IndexType → Text
using_part none = []
using_part (some t) = codes " USING " ++ index_type t

-- The index stands with the name that the caller has chosen for it.
unfoldable pub build_create_index_sql : Text → Text → Text → IndexDefinition → Bool → Text
build_create_index_sql schema table name index if_not_exists = concat (
    codes "CREATE "
    ∷ (if index.unique then codes "UNIQUE " else [])
    ∷ codes "INDEX "
    ∷ (if if_not_exists then codes "IF NOT EXISTS " else [])
    ∷ quote_identifier name
    ∷ codes " ON "
    ∷ table_name quoter schema table
    ∷ using_part index.type
    ∷ codes " ("
    ∷ join (codes ", ") (map quote_identifier index.columns)
    ∷ codes ")"
    ∷ [])

unfoldable pub build_create_table_query : CreateTableParams → DdlResult
build_create_table_query =
    Columns.build_create_table_query quoter
      (λ schema table name index. build_create_index_sql schema table name index false)

abbrev pub cascade_clause : Bool → Text
cascade_clause b = if b then codes " CASCADE" else []

abbrev pub if_exists_clause : Bool → Text
if_exists_clause b = if b then codes "IF EXISTS " else []

unfoldable pub build_drop_table_query : DropTableParams → DdlResult
build_drop_table_query p = record {
  sql = concat (
      codes "DROP TABLE "
      ∷ if_exists_clause p.if_exists
      ∷ table_name quoter p.schema p.table
      ∷ cascade_clause p.cascade
      ∷ []);
  operation = drop_table;
  schema = p.schema;
  table = p.table;
}

unfoldable pub build_truncate_table_query : TruncateTableParams → DdlResult
build_truncate_table_query p = record {
  sql = concat (
      codes "TRUNCATE TABLE "
      ∷ table_name quoter p.schema p.table
      ∷ (if p.restart_identity then codes " RESTART IDENTITY" else [])
      ∷ cascade_clause p.cascade
      ∷ []);
  operation = truncate_table;
  schema = p.schema;
  table = p.table;
}

-- `ALTER TABLE`, the table's name and the rest.
abbrev alter : Text → Text → List Text → DdlResult
alter schema table rest = record {
  sql = concat (codes "ALTER TABLE " ∷ table_name quoter schema table ∷ rest);
  operation = alter_table;
  schema = schema;
  table = table;
}

unfoldable pub build_rename_table_query : RenameTableParams → DdlResult
build_rename_table_query p =
    alter p.schema p.table (codes " RENAME TO " ∷ quote_identifier p.new_name ∷ [])

unfoldable pub build_add_column_query : AddColumnParams → DdlResult
build_add_column_query = Columns.build_add_column_query quoter

unfoldable pub build_drop_column_query : DropColumnParams → DdlResult
build_drop_column_query p =
    alter p.schema p.table
      (codes " DROP COLUMN " ∷ quote_identifier p.column ∷ cascade_clause p.cascade ∷ [])

unfoldable pub build_rename_column_query : RenameColumnParams → DdlResult
build_rename_column_query = Columns.build_rename_column_query quoter

abbrev pub type_change : Text → Option Text → List Text
type_change column none = []
type_change column (some t) =
    concat (codes "ALTER COLUMN " ∷ column ∷ codes " SET DATA TYPE " ∷ t ∷ []) ∷ []

abbrev pub null_change : Text → Option Bool → List Text
null_change column none = []
null_change column (some true) =
    concat (codes "ALTER COLUMN " ∷ column ∷ codes " DROP NOT NULL" ∷ []) ∷ []
null_change column (some false) =
    concat (codes "ALTER COLUMN " ∷ column ∷ codes " SET NOT NULL" ∷ []) ∷ []

abbrev pub default_change : Text → Option (Option Text) → List Text
default_change column none = []
default_change column (some none) =
    concat (codes "ALTER COLUMN " ∷ column ∷ codes " DROP DEFAULT" ∷ []) ∷ []
default_change column (some (some v)) =
    concat (codes "ALTER COLUMN " ∷ column ∷ codes " SET DEFAULT " ∷ v ∷ []) ∷ []

abbrev pub alter_parts : AlterColumnParams → List Text
alter_parts p =
    let column = quote_identifier p.column in
    type_change column p.data_type
    ++ (null_change column p.nullable ++ default_change column p.default_value)

unfoldable pub build_alter_column_query : AlterColumnParams → DdlResult
build_alter_column_query p =
    alter p.schema p.table (codes " " ∷ join (codes ", ") (alter_parts p) ∷ [])

unfoldable pub build_create_index_query : CreateIndexParams → DdlResult
build_create_index_query p = record {
  sql =
      build_create_index_sql p.schema p.table
        (name_or p.index.name (generate_index_name p.table p.index.columns)) p.index
        p.if_not_exists;
  operation = create_index;
  schema = p.schema;
  table = p.table;
}

unfoldable pub build_drop_index_query : DropIndexParams → DdlResult
build_drop_index_query p = record {
  sql = concat (
      codes "DROP INDEX "
      ∷ if_exists_clause p.if_exists
      ∷ table_name quoter p.schema p.index_name
      ∷ cascade_clause p.cascade
      ∷ []);
  operation = drop_index;
  schema = p.schema;
  table = or_else p.table [];
}

unfoldable pub build_add_foreign_key_query : AddForeignKeyParams → DdlResult
build_add_foreign_key_query = Columns.build_add_foreign_key_query quoter

unfoldable pub build_drop_foreign_key_query : DropForeignKeyParams → DdlResult
build_drop_foreign_key_query p =
    alter p.schema p.table (
      codes " DROP CONSTRAINT "
      ∷ quote_identifier p.constraint_name
      ∷ cascade_clause p.cascade
      ∷ [])
