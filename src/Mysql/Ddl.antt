-- ===== src/Mysql/Ddl.antt =====
-- frontend/src/workbench/lib/databases/mysql/ddl.ts. What it shares with PostgreSQL's builder is in
-- Sql/Columns.antt. A builder that throws returns an error.
use vaultsql.Prelude.{
  Bool, false, ◌⊎◌, inl, inr, List, [], ◌∷◌, ◌++◌, map, Option, none, some, Text, codes, concat,
  join, or_else, if◌then◌else◌,
}
use vaultsql.Database.Ddl.{
  IndexType, btree, hash, gin, gist, brin, IndexDefinition, DdlResult, alter_table, drop_table,
  truncate_table, create_index, drop_index, CreateTableParams, DropTableParams, TruncateTableParams,
  RenameTableParams, AddColumnParams, DropColumnParams, RenameColumnParams, AlterColumnParams,
  CreateIndexParams, DropIndexParams, AddForeignKeyParams, DropForeignKeyParams,
}
use vaultsql.Sql.Clauses.{table_name}
use vaultsql.Sql.Columns
use vaultsql.Sql.Columns.{name_or, generate_index_name}
use vaultsql.Mysql.Quote.{quote_identifier, quoter}

pub data BuildError : Type 0 where
  table_name_required : BuildError

abbrev pub upper_index_type : IndexType → Text
upper_index_type btree = codes "BTREE"
upper_index_type hash = codes "HASH"
upper_index_type gin = codes "GIN"
upper_index_type gist = codes "GIST"
upper_index_type brin = codes "BRIN"

abbrev pub using_part : Option IndexType → Text
using_part none = []
using_part (some t) = codes " USING " ++ upper_index_type t

-- The index stands with the name that the caller has chosen for it. The index type comes last.
unfoldable pub build_create_index_sql : Text → Text → Text → IndexDefinition → Text
build_create_index_sql schema table name index = concat (
    codes "CREATE "
    ∷ (if index.unique then codes "UNIQUE " else [])
    ∷ codes "INDEX "
    ∷ quote_identifier name
    ∷ codes " ON "
    ∷ table_name quoter schema table
    ∷ codes " ("
    ∷ join (codes ", ") (map quote_identifier index.columns)
    ∷ codes ")"
    ∷ using_part index.type
    ∷ [])

unfoldable pub build_create_table_query : CreateTableParams → DdlResult
build_create_table_query = Columns.build_create_table_query quoter build_create_index_sql

unfoldable pub build_drop_table_query : DropTableParams → DdlResult
build_drop_table_query p = record {
  sql = concat (
      codes "DROP TABLE "
      ∷ (if p.if_exists then codes "IF EXISTS " else [])
      ∷ table_name quoter p.schema p.table
      ∷ []);
  operation = drop_table;
  schema = p.schema;
  table = p.table;
}

unfoldable pub build_truncate_table_query : TruncateTableParams → DdlResult
build_truncate_table_query p = record {
  sql = concat (codes "TRUNCATE TABLE " ∷ table_name quoter p.schema p.table ∷ []);
  operation = truncate_table;
  schema = p.schema;
  table = p.table;
}

unfoldable pub build_rename_table_query : RenameTableParams → DdlResult
build_rename_table_query p = record {
  sql = concat (
      codes "RENAME TABLE "
      ∷ table_name quoter p.schema p.table
      ∷ codes " TO "
      ∷ table_name quoter p.schema p.new_name
      ∷ []);
  operation = alter_table;
  schema = p.schema;
  table = p.table;
}

-- `ALTER TABLE`, the table's name and the rest.
abbrev alter : Text → Text → List Text → DdlResult
alter schema table rest = record {
  sql = concat (codes "ALTER TABLE " ∷ table_name quoter schema table ∷ rest);
  operation = alter_table;
  schema = schema;
  table = table;
}

unfoldable pub build_add_column_query : AddColumnParams → DdlResult
build_add_column_query = Columns.build_add_column_query quoter

unfoldable pub build_drop_column_query : DropColumnParams → DdlResult
build_drop_column_query p =
    alter p.schema p.table (codes " DROP COLUMN " ∷ quote_identifier p.column ∷ [])

unfoldable pub build_rename_column_query : RenameColumnParams → DdlResult
build_rename_column_query = Columns.build_rename_column_query quoter

abbrev pub not_null_clause : Option Bool → Text
not_null_clause (some false) = codes " NOT NULL"
not_null_clause _ = []

-- Nullability is only written together with a type; a change of the one needs the other.
abbrev pub modify : Text → Text → Option Bool → List Text
modify column type nullable =
    concat (codes "MODIFY COLUMN " ∷ column ∷ codes " " ∷ type ∷ not_null_clause nullable ∷ []) ∷ []

abbrev pub modify_part : Text → Option Text → Option Bool → List Text
modify_part column none none = []
modify_part column data_type nullable =
    modify column (or_else data_type (codes "VARCHAR(255)")) nullable

abbrev pub default_change : Text → Option (Option Text) → List Text
default_change column none = []
default_change column (some none) =
    concat (codes "ALTER COLUMN " ∷ column ∷ codes " DROP DEFAULT" ∷ []) ∷ []
default_change column (some (some v)) =
    concat (codes "ALTER COLUMN " ∷ column ∷ codes " SET DEFAULT " ∷ v ∷ []) ∷ []

abbrev pub alter_parts : AlterColumnParams → List Text
alter_parts p =
    let column = quote_identifier p.column in
    modify_part column p.data_type p.nullable ++ default_change column p.default_value

unfoldable pub build_alter_column_query : AlterColumnParams → DdlResult
build_alter_column_query p =
    alter p.schema p.table (codes " " ∷ join (codes ", ") (alter_parts p) ∷ [])

unfoldable pub build_create_index_query : CreateIndexParams → DdlResult
build_create_index_query p = record {
  sql =
      build_create_index_sql p.schema p.table
        (name_or p.index.name (generate_index_name p.table p.index.columns)) p.index;
  operation = create_index;
  schema = p.schema;
  table = p.table;
}

abbrev drop_index_on : DropIndexParams → Text → DdlResult
drop_index_on p table = record {
  sql = concat (
      codes "DROP INDEX "
      ∷ quote_identifier p.index_name
      ∷ codes " ON "
      ∷ table_name quoter p.schema table
      ∷ []);
  operation = drop_index;
  schema = p.schema;
  table = table;
}

abbrev drop_index_of : DropIndexParams → Option Text → BuildError ⊎ DdlResult
drop_index_of p none = inl table_name_required
drop_index_of p (some []) = inl table_name_required
drop_index_of p (some (c ∷ s)) = inr (drop_index_on p (c ∷ s))

unfoldable pub build_drop_index_query : DropIndexParams → BuildError ⊎ DdlResult
build_drop_index_query p = drop_index_of p p.table

unfoldable pub build_add_foreign_key_query : AddForeignKeyParams → DdlResult
build_add_foreign_key_query = Columns.build_add_foreign_key_query quoter

unfoldable pub build_drop_foreign_key_query : DropForeignKeyParams → DdlResult
build_drop_foreign_key_query p =
    alter p.schema p.table (codes " DROP FOREIGN KEY " ∷ quote_identifier p.constraint_name ∷ [])
