-- ===== src/Mysql/DdlNames.antt =====
-- What MySQL reads in the schema changes of Mysql/Ddl.antt.
use vaultsql.Prelude.{
  true, List, [], ◌∷◌, ◌++◌, Option, none, some, ◌≡◌, ◌⊎◌, inl, inr, refl, Text, codes, truthy,
  or_else, false,
}
use vaultsql.Database.Ddl.{
  btree, hash, gin, gist, brin, IndexType, IndexDefinition, DropTableParams, TruncateTableParams,
  RenameTableParams, DropColumnParams, RenameColumnParams, CreateIndexParams, DropIndexParams,
  AddForeignKeyParams, DropForeignKeyParams, DdlResult,
}
use vaultsql.Sql.Clauses.{table_name}
use vaultsql.Sql.Phrases.{unmarked, is_phrase, Reads-after, Reads-between, Reads-last}
use vaultsql.Sql.Lexer.{Token, tokens, words}
use vaultsql.Sql.Reads.{Reads}
use vaultsql.Sql.ClauseReads.{Reads-table}
use vaultsql.Sql.QueryTokens.{table_tokens}
use vaultsql.Mysql.QueryReads.{name}
use vaultsql.Sql.Columns.{name_or, generate_index_name}
use vaultsql.Sql.Names.{
  Names, HoldsNames, HoldsNames-of_Names, Names-name, Names-after, Names-between, Names-last,
  Names-end, Names-list, Names-table, Names-flag,
}
use vaultsql.Sql.ColumnNames.{foreign_key_names, Names-rename_column, Names-add_foreign_key}
use vaultsql.Mysql.Quote.{mysql, quoter, quoter-IsLexed}
use vaultsql.Mysql.Ddl.{
  BuildError, using_part, build_create_index_sql, build_drop_table_query,
  build_truncate_table_query, build_rename_table_query, build_drop_column_query,
  build_rename_column_query, build_create_index_query, build_drop_index_query,
  build_add_foreign_key_query, build_drop_foreign_key_query,
}

unmarked-closed : (t : Option IndexType) → unmarked (codes ")" ++ (using_part t ++ [])) ≡ true
unmarked-closed none = refl
unmarked-closed (some btree) = refl
unmarked-closed (some hash) = refl
unmarked-closed (some gin) = refl
unmarked-closed (some gist) = refl
unmarked-closed (some brin) = refl

Names-create_index_sql :
    (schema table name : Text) (index : IndexDefinition)
    → Names mysql
        (build_create_index_sql schema table name index)
        (name ∷ schema ∷ table ∷ index.columns)
unfolding build_create_index_sql
Names-create_index_sql schema table name index =
    let l = quoter-IsLexed in
    Names-after l (codes "CREATE ") refl (
      Names-flag l index.unique (codes "UNIQUE ") refl (
        Names-after l (codes "INDEX ") refl (
          Names-between l (Names-name l name) (codes " ON ") refl (
            Names-between l (Names-table l schema table) (codes " (") refl (
              Names-end l (Names-list l index.columns) (codes ")" ++ (using_part index.type ++ []))
                (unmarked-closed index.type))))))

Names-alter :
    (schema table : Text) {rest : Text} {ns : List Text} (w : Text)
    → is_phrase w ≡ true
    → Names mysql rest ns
    → Names mysql
        (codes "ALTER TABLE " ++ (table_name quoter schema table ++ (w ++ rest)))
        (schema ∷ table ∷ ns)
Names-alter schema table w h n =
    let l = quoter-IsLexed in
    Names-after l (codes "ALTER TABLE ") refl (Names-between l (Names-table l schema table) w h n)

-- DROP INDEX of the index ON the table.
abbrev pub drop_index_tokens : Text → Text → Text → List Token
drop_index_tokens index_name schema table =
    words (codes "DROP INDEX ")
    ++ (name index_name ++ (words (codes " ON ") ++ table_tokens name schema table))

-- What an index's removal must be: an error without a table's name, and else a statement that is read
-- as the removal of this index from this table.
abbrev pub IsIndexDropped : DropIndexParams → BuildError ⊎ DdlResult → Type 0
IsIndexDropped i (inl e) = truthy (or_else i.table []) ≡ false
IsIndexDropped i (inr r) =
    (truthy (or_else i.table []) ≡ true)
    × (i.table ≡ some r.table)
    × (tokens mysql r.sql ≡ drop_index_tokens i.index_name i.schema r.table)

Reads-drop_index :
    (index_name schema table : Text)
    → Reads mysql
        (codes "DROP INDEX "
          ++ (quoter.quote_identifier index_name
              ++ (codes " ON " ++ (table_name quoter schema table ++ []))))
        (drop_index_tokens index_name schema table)
Reads-drop_index index_name schema table =
    let l = quoter-IsLexed in
    Reads-after l (codes "DROP INDEX ") refl (
      Reads-between l (l.reads_name index_name) (codes " ON ") refl
        (Reads-last l (Reads-table l schema table)))

-- Whatever the flags, MySQL reads DROP TABLE and TRUNCATE TABLE with the names of the schema and the
-- table alone.
pub names_mysql-drop :
    (p : DropTableParams) (t : TruncateTableParams)
    → HoldsNames mysql (build_drop_table_query p).sql (p.schema ∷ p.table ∷ [])
      × HoldsNames mysql (build_truncate_table_query t).sql (t.schema ∷ t.table ∷ [])
unfolding build_drop_table_query build_truncate_table_query
names_mysql-drop p t =
    let l = quoter-IsLexed in
    (
      HoldsNames-of_Names (
          Names-after l (codes "DROP TABLE ") refl (
            Names-flag l p.if_exists (codes "IF EXISTS ") refl
              (Names-last l (Names-table l p.schema p.table)))),
      HoldsNames-of_Names (
          Names-after l (codes "TRUNCATE TABLE ") refl
            (Names-last l (Names-table l t.schema t.table))),
    )

drop_index_cases :
    (i : DropIndexParams) (table : Option Text)
    → i.table ≡ table
    → IsIndexDropped i (build_drop_index_query i)
unfolding build_drop_index_query
drop_index_cases i none e = rw e refl
drop_index_cases i (some []) e = rw e refl
drop_index_cases i (some (c ∷ s)) e =
    rw e (refl, refl, (Reads-drop_index i.index_name i.schema (c ∷ s)).emitted)

-- The removal of an index throws exactly if the table's name is missing or empty, and else MySQL
-- reads it as DROP INDEX of the index ON the table of this schema and name.
pub names_mysql-drop_index : (i : DropIndexParams) → IsIndexDropped i (build_drop_index_query i)
names_mysql-drop_index i = drop_index_cases i i.table refl

-- MySQL reads the renaming of a table or a column, the removal of a column or a foreign key, and
-- a new index or foreign key with exactly the names of the parameters as quoted texts, in order. A
-- missing name of an index or of a constraint is the generated one.
pub names_mysql-alter :
    (rt : RenameTableParams) (dc : DropColumnParams) (rc : RenameColumnParams)
    (ci : CreateIndexParams) (af : AddForeignKeyParams) (df : DropForeignKeyParams)
    → HoldsNames mysql
        (build_rename_table_query rt).sql
        (rt.schema ∷ rt.table ∷ rt.schema ∷ rt.new_name ∷ [])
      × HoldsNames mysql (build_drop_column_query dc).sql (dc.schema ∷ dc.table ∷ dc.column ∷ [])
      × HoldsNames mysql
          (build_rename_column_query rc).sql
          (rc.schema ∷ rc.table ∷ rc.column ∷ rc.new_name ∷ [])
      × HoldsNames mysql (build_create_index_query ci).sql (
          name_or ci.index.name (generate_index_name ci.table ci.index.columns)
          ∷ ci.schema
          ∷ ci.table
          ∷ ci.index.columns)
      × HoldsNames mysql (build_add_foreign_key_query af).sql (foreign_key_names af)
      × HoldsNames mysql
          (build_drop_foreign_key_query df).sql
          (df.schema ∷ df.table ∷ df.constraint_name ∷ [])
unfolding build_rename_table_query build_drop_column_query build_rename_column_query
    build_create_index_query build_add_foreign_key_query build_drop_foreign_key_query
names_mysql-alter rt dc rc ci af df =
    let l = quoter-IsLexed in
    (
      HoldsNames-of_Names (
          Names-after l (codes "RENAME TABLE ") refl (
            Names-between l (Names-table l rt.schema rt.table) (codes " TO ") refl
              (Names-last l (Names-table l rt.schema rt.new_name)))),
      HoldsNames-of_Names (
          Names-alter dc.schema dc.table (codes " DROP COLUMN ") refl
            (Names-last l (Names-name l dc.column))),
      HoldsNames-of_Names (Names-rename_column l rc),
      HoldsNames-of_Names (
          Names-create_index_sql ci.schema ci.table
            (name_or ci.index.name (generate_index_name ci.table ci.index.columns)) ci.index),
      HoldsNames-of_Names (Names-add_foreign_key l af),
      HoldsNames-of_Names (
          Names-alter df.schema df.table (codes " DROP FOREIGN KEY ") refl
            (Names-last l (Names-name l df.constraint_name))),
    )
