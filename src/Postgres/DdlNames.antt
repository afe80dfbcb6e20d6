-- ===== src/Postgres/DdlNames.antt =====
-- What PostgreSQL reads in the schema changes of Postgres/Ddl.antt.
use vaultsql.Prelude.{
  Bool, true, false, List, [], ◌∷◌, ◌++◌, Option, none, some, ◌≡◌, refl, Text, codes, if◌then◌else◌,
}
use vaultsql.Database.Ddl.{
  btree, hash, gin, gist, brin, IndexType, IndexDefinition, DropTableParams, TruncateTableParams,
  RenameTableParams, DropColumnParams, RenameColumnParams, CreateIndexParams, DropIndexParams,
  AddForeignKeyParams, DropForeignKeyParams,
}
use vaultsql.Sql.Clauses.{table_name}
use vaultsql.Sql.Phrases.{unmarked, is_phrase}
use vaultsql.Sql.Columns.{name_or, generate_index_name}
use vaultsql.Sql.Names.{
  Names, HoldsNames, HoldsNames-of_Names, Names-name, Names-after, Names-between, Names-across,
  Names-last, Names-end, Names-list, Names-table, Names-flag, Names-end_flag,
}
use vaultsql.Sql.ColumnNames.{foreign_key_names, Names-rename_column, Names-add_foreign_key}
use vaultsql.Postgres.Quote.{postgres, quoter, quoter-IsLexed}
use vaultsql.Postgres.Ddl.{
  using_part, cascade_clause, build_create_index_sql, build_drop_table_query,
  build_truncate_table_query, build_rename_table_query, build_drop_column_query,
  build_rename_column_query, build_create_index_query, build_drop_index_query,
  build_add_foreign_key_query, build_drop_foreign_key_query,
}

unmarked-using_part : (t : Option IndexType) → unmarked (using_part t) ≡ true
unmarked-using_part none = refl
unmarked-using_part (some btree) = refl
unmarked-using_part (some hash) = refl
unmarked-using_part (some gin) = refl
unmarked-using_part (some gist) = refl
unmarked-using_part (some brin) = refl

Names-create_index_sql :
    (schema table name : Text) (index : IndexDefinition) (if_not_exists : Bool)
    → Names postgres
        (build_create_index_sql schema table name index if_not_exists)
        (name ∷ schema ∷ table ∷ index.columns)
unfolding build_create_index_sql
Names-create_index_sql schema table name index if_not_exists =
    let l = quoter-IsLexed in
    Names-after l (codes "CREATE ") refl (
      Names-flag l index.unique (codes "UNIQUE ") refl (
        Names-after l (codes "INDEX ") refl (
          Names-flag l if_not_exists (codes "IF NOT EXISTS ") refl (
            Names-between l (Names-name l name) (codes " ON ") refl (
              Names-across l (Names-table l schema table) (using_part index.type)
                (unmarked-using_part index.type) (codes " (") refl
                (Names-end l (Names-list l index.columns) (codes ")") refl))))))

-- `ALTER TABLE`, a name and an optional CASCADE.
Names-alter :
    (schema table : Text) {rest : Text} {ns : List Text} (w : Text)
    → is_phrase w ≡ true
    → Names postgres rest ns
    → Names postgres
        (codes "ALTER TABLE " ++ (table_name quoter schema table ++ (w ++ rest)))
        (schema ∷ table ∷ ns)
Names-alter schema table w h n =
    let l = quoter-IsLexed in
    Names-after l (codes "ALTER TABLE ") refl (Names-between l (Names-table l schema table) w h n)

Names-cascade :
    {a : Text} {ns : List Text} (b : Bool)
    → Names postgres a ns
    → Names postgres (a ++ (cascade_clause b ++ [])) ns
Names-cascade b n = Names-end_flag quoter-IsLexed n b (codes " CASCADE") refl

abbrev truncate_flags : Bool → Bool → Text
truncate_flags a b = (if a then codes " RESTART IDENTITY" else []) ++ (cascade_clause b ++ [])

unmarked-truncate_flags : (a b : Bool) → unmarked (truncate_flags a b) ≡ true
unmarked-truncate_flags true true = refl
unmarked-truncate_flags true false = refl
unmarked-truncate_flags false true = refl
unmarked-truncate_flags false false = refl

-- Whatever the flags, PostgreSQL reads DROP TABLE and TRUNCATE TABLE with the names of the schema
-- and the table alone, and DROP INDEX with those of the schema and the index alone.
pub names-drop :
    (p : DropTableParams) (t : TruncateTableParams) (i : DropIndexParams)
    → HoldsNames postgres (build_drop_table_query p).sql (p.schema ∷ p.table ∷ [])
      × HoldsNames postgres (build_truncate_table_query t).sql (t.schema ∷ t.table ∷ [])
      × HoldsNames postgres (build_drop_index_query i).sql (i.schema ∷ i.index_name ∷ [])
unfolding build_drop_table_query build_truncate_table_query build_drop_index_query
names-drop p t i =
    let l = quoter-IsLexed in
    (
      HoldsNames-of_Names (
          Names-after l (codes "DROP TABLE ") refl (
            Names-flag l p.if_exists (codes "IF EXISTS ") refl
              (Names-cascade p.cascade (Names-table l p.schema p.table)))),
      HoldsNames-of_Names (
          Names-after l (codes "TRUNCATE TABLE ") refl (
            Names-end l (Names-table l t.schema t.table)
              (truncate_flags t.restart_identity t.cascade)
              (unmarked-truncate_flags t.restart_identity t.cascade))),
      HoldsNames-of_Names (
          Names-after l (codes "DROP INDEX ") refl (
            Names-flag l i.if_exists (codes "IF EXISTS ") refl
              (Names-cascade i.cascade (Names-table l i.schema i.index_name)))),
    )

pub names-drop_column :
    (p : DropColumnParams)
    → HoldsNames postgres (build_drop_column_query p).sql (p.schema ∷ p.table ∷ p.column ∷ [])
unfolding build_drop_column_query
names-drop_column p =
    let l = quoter-IsLexed in
    HoldsNames-of_Names (
      Names-alter p.schema p.table (codes " DROP COLUMN ") refl
        (Names-cascade p.cascade (Names-name l p.column)))

-- PostgreSQL reads the renaming of a table or a column, the removal of a column or a foreign key,
-- and a new index or foreign key with exactly the names of the parameters as quoted texts, in
-- order. A missing name of an index or of a constraint is the generated one.
pub names-alter :
    (rt : RenameTableParams) (dc : DropColumnParams) (rc : RenameColumnParams)
    (ci : CreateIndexParams) (af : AddForeignKeyParams) (df : DropForeignKeyParams)
    → HoldsNames postgres
        (build_rename_table_query rt).sql
        (rt.schema ∷ rt.table ∷ rt.new_name ∷ [])
      × HoldsNames postgres (build_drop_column_query dc).sql (dc.schema ∷ dc.table ∷ dc.column ∷ [])
      × HoldsNames postgres
          (build_rename_column_query rc).sql
          (rc.schema ∷ rc.table ∷ rc.column ∷ rc.new_name ∷ [])
      × HoldsNames postgres (build_create_index_query ci).sql (
          name_or ci.index.name (generate_index_name ci.table ci.index.columns)
          ∷ ci.schema
          ∷ ci.table
          ∷ ci.index.columns)
      × HoldsNames postgres (build_add_foreign_key_query af).sql (foreign_key_names af)
      × HoldsNames postgres
          (build_drop_foreign_key_query df).sql
          (df.schema ∷ df.table ∷ df.constraint_name ∷ [])
unfolding build_rename_table_query build_drop_column_query build_rename_column_query
    build_create_index_query build_add_foreign_key_query build_drop_foreign_key_query
names-alter rt dc rc ci af df =
    let l = quoter-IsLexed in
    (
      HoldsNames-of_Names (
          Names-alter rt.schema rt.table (codes " RENAME TO ") refl
            (Names-last l (Names-name l rt.new_name))),
      names-drop_column dc,
      HoldsNames-of_Names (Names-rename_column l rc),
      HoldsNames-of_Names (
          Names-create_index_sql ci.schema ci.table
            (name_or ci.index.name (generate_index_name ci.table ci.index.columns)) ci.index
            ci.if_not_exists),
      HoldsNames-of_Names (Names-add_foreign_key l af),
      HoldsNames-of_Names (
          Names-alter df.schema df.table (codes " DROP CONSTRAINT ") refl
            (Names-cascade df.cascade (Names-name l df.constraint_name))),
    )
