-- ===== src/Sql/Columns.antt =====
-- Column definitions, generated names and the statements that postgres/ddl.ts and mysql/ddl.ts
-- (below frontend/src/workbench/lib/databases) build by the same text, over the dialect's quoting.
use vaultsql.Prelude.{
  ℕ, Bool, false, ◌||◌, ◌&&◌, List, [], ◌∷◌, ◌++◌, map, keep, Option, none, some, Text, codes,
  concat, join, leb, ltb, length, ◌==◌, if◌then◌else◌,
}
use vaultsql.Database.Ddl.{
  ForeignKeyAction, cascade, set_null, restrict, no_action, set_default, Reference,
  ColumnDefinition, IndexDefinition, DdlResult, create_table, alter_table, CreateTableParams,
  AddColumnParams, RenameColumnParams, AddForeignKeyParams,
}
use vaultsql.Sql.Quoter.{Quoter}
use vaultsql.Sql.Clauses.{table_name, items}

abbrev pub action_text : ForeignKeyAction → Text
action_text cascade = codes "CASCADE"
action_text set_null = codes "SET NULL"
action_text restrict = codes "RESTRICT"
action_text no_action = codes "NO ACTION"
action_text set_default = codes "SET DEFAULT"

-- `/[^a-zA-Z0-9_]/g` replaced by an underscore.
abbrev pub is_word : ℕ → Bool
is_word c =
    (leb b'a' c && leb c b'z')
    || (leb b'A' c && leb c b'Z')
    || (leb b'0' c && leb c b'9')
    || c == b'_'

unfoldable pub sanitize : Text → Text
sanitize [] = []
sanitize (c ∷ s) = (if is_word c then c else b'_') ∷ sanitize s

unfoldable pub generate_foreign_key_name : Text → Text → Text
generate_foreign_key_name table column =
    concat (codes "fk_" ∷ sanitize table ∷ codes "_" ∷ sanitize column ∷ [])

unfoldable pub generate_index_name : Text → List Text → Text
generate_index_name table columns =
    concat
      (codes "idx_" ∷ sanitize table ∷ codes "_" ∷ join (codes "_") (map sanitize columns) ∷ [])

-- `name || generated`: an absent name and an empty one are replaced.
abbrev pub name_or : Option Text → Text → Text
name_or none generated = generated
name_or (some []) generated = generated
name_or (some (c ∷ s)) generated = c ∷ s

-- A part that is there if the flag is set, or with the text that is given.
abbrev pub flag : Bool → Text → List Text
flag b t = if b then t ∷ [] else []

abbrev pub not_null : Option Bool → List Text
not_null (some false) = codes "NOT NULL" ∷ []
not_null _ = []

abbrev pub default_part : Option (Option Text) → List Text
default_part (some (some v)) = (codes "DEFAULT " ++ v) ∷ []
default_part _ = []

abbrev pub check_part : Option Text → List Text
check_part none = []
check_part (some []) = []
check_part (some (c ∷ s)) = concat (codes "CHECK (" ∷ (c ∷ s) ∷ codes ")" ∷ []) ∷ []

abbrev pub action_part : Text → Option ForeignKeyAction → Text
action_part word none = []
action_part word (some action) = word ++ action_text action

module _ (q : Quoter) where
  open q use {quote_identifier}

  abbrev pub reference_part : Option Reference → List Text
  reference_part none = []
  reference_part (some r) =
      concat (
        codes "REFERENCES "
        ∷ table_name q r.schema r.table
        ∷ codes "("
        ∷ quote_identifier r.column
        ∷ codes ")"
        ∷ action_part (codes " ON DELETE ") r.on_delete
        ∷ action_part (codes " ON UPDATE ") r.on_update
        ∷ [])
      ∷ []

  abbrev pub column_parts : ColumnDefinition → List Text
  column_parts col =
      quote_identifier col.name
      ∷ col.data_type
      ∷ (flag col.primary_key (codes "PRIMARY KEY")
          ++ (flag col.unique (codes "UNIQUE")
              ++ (not_null col.nullable
                  ++ (default_part col.default_value
                      ++ (reference_part col.references ++ check_part col.check)))))

  unfoldable pub build_column_definition : ColumnDefinition → Text
  build_column_definition col = join (codes " ") (column_parts col)

  abbrev pub primary_key_columns : List ColumnDefinition → List Text
  primary_key_columns columns =
      map (λ c. quote_identifier c.name) (keep (λ c. c.primary_key) columns)

  -- The constraint for a key of several columns.
  abbrev pub composite_key : List Text → List Text
  composite_key names =
      if ltb 1 (length names)
      then concat (codes "PRIMARY KEY (" ∷ join (codes ", ") names ∷ codes ")" ∷ []) ∷ []
      else []

  abbrev pub definitions : List ColumnDefinition → List Text
  definitions columns =
      map build_column_definition columns ++ composite_key (primary_key_columns columns)

  unfoldable pub build_add_column_query : AddColumnParams → DdlResult
  build_add_column_query p = record {
    sql = concat (
        codes "ALTER TABLE "
        ∷ table_name q p.schema p.table
        ∷ codes " ADD COLUMN "
        ∷ build_column_definition p.column
        ∷ []);
    operation = alter_table;
    schema = p.schema;
    table = p.table;
  }

  unfoldable pub build_rename_column_query : RenameColumnParams → DdlResult
  build_rename_column_query p = record {
    sql = concat (
        codes "ALTER TABLE "
        ∷ table_name q p.schema p.table
        ∷ codes " RENAME COLUMN "
        ∷ quote_identifier p.column
        ∷ codes " TO "
        ∷ quote_identifier p.new_name
        ∷ []);
    operation = alter_table;
    schema = p.schema;
    table = p.table;
  }

  unfoldable pub build_add_foreign_key_query : AddForeignKeyParams → DdlResult
  build_add_foreign_key_query p = record {
    sql = concat (
        codes "ALTER TABLE "
        ∷ table_name q p.schema p.table
        ∷ codes " ADD CONSTRAINT "
        ∷ quote_identifier (name_or p.constraint_name (generate_foreign_key_name p.table p.column))
        ∷ codes " FOREIGN KEY ("
        ∷ quote_identifier p.column
        ∷ codes ") REFERENCES "
        ∷ table_name q p.ref_schema p.ref_table
        ∷ codes "("
        ∷ quote_identifier p.ref_column
        ∷ codes ")"
        ∷ action_part (codes " ON DELETE ") p.on_delete
        ∷ action_part (codes " ON UPDATE ") p.on_update
        ∷ []);
    operation = alter_table;
    schema = p.schema;
    table = p.table;
  }

-- CREATE TABLE, over the dialect's CREATE INDEX for an index that has its name.
module _ (q : Quoter) (build_create_index_sql : Text → Text → Text → IndexDefinition → Text) where
  abbrev pub index_statement : Text → Text → IndexDefinition → Text
  index_statement schema table idx =
      build_create_index_sql schema table (name_or idx.name (generate_index_name table idx.columns))
        idx

  abbrev pub index_statements : Text → Text → List IndexDefinition → Text
  index_statements schema table [] = []
  index_statements schema table (i ∷ is) =
      codes ";\n" ++ join (codes ";\n") (map (index_statement schema table) (i ∷ is))

  unfoldable pub build_create_table_query : CreateTableParams → DdlResult
  build_create_table_query p = record {
    sql = concat (
        codes "CREATE TABLE "
        ∷ (if p.if_not_exists then codes "IF NOT EXISTS " else [])
        ∷ table_name q p.schema p.table
        ∷ codes " (\n  "
        ∷ join (codes ",\n  ") (definitions q p.columns)
        ∷ codes "\n)"
        ∷ index_statements p.schema p.table (items p.indexes)
        ∷ []);
    operation = create_table;
    schema = p.schema;
    table = p.table;
  }
