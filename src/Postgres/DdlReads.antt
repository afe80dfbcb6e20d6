-- ===== src/Postgres/DdlReads.antt =====
-- What PostgreSQL reads in the schema changes of Postgres/Ddl.antt, token by token.
use vaultsql.Prelude.{
  Bool, true, false, List, [], ◌++◌, append-nil, ◌≡◌, refl, subst, Text, codes, if◌then◌else◌,
}
use vaultsql.Database.Ddl.{
  DropTableParams, TruncateTableParams, RenameTableParams, DropColumnParams, RenameColumnParams,
  DropIndexParams, DropForeignKeyParams,
}
use vaultsql.Sql.Lexer.{Token, words, tokens}
use vaultsql.Sql.Reads.{Reads}
use vaultsql.Sql.Clauses.{table_name}
use vaultsql.Sql.Phrases.{
  unmarked, is_phrase, Reads-nil, Reads-after, Reads-between, Reads-before, Reads-last,
}
use vaultsql.Sql.ClauseReads.{Reads-table}
use vaultsql.Sql.QueryTokens.{table_tokens}
use vaultsql.Postgres.Quote.{postgres, quoter, quoter-IsLexed}
use vaultsql.Postgres.QueryReads.{name}
use vaultsql.Postgres.Ddl.{
  build_drop_table_query, build_truncate_table_query, build_rename_table_query,
  build_drop_column_query, build_rename_column_query, build_drop_index_query,
  build_drop_foreign_key_query,
}

-- Keywords that are written only under a flag.
abbrev pub under : Bool → Text → Text
under flag w = if flag then w else []

abbrev pub alter_tokens : Text → Text → List Token → List Token
alter_tokens schema table rest =
    words (codes "ALTER TABLE ") ++ (table_tokens name schema table ++ rest)

abbrev pub drop_table_tokens : DropTableParams → List Token
drop_table_tokens p =
    words (codes "DROP TABLE ")
    ++ (words (under p.if_exists (codes "IF EXISTS "))
        ++ (table_tokens name p.schema p.table ++ words (under p.cascade (codes " CASCADE"))))

abbrev pub truncate_tokens : TruncateTableParams → List Token
truncate_tokens p =
    words (codes "TRUNCATE TABLE ")
    ++ (table_tokens name p.schema p.table
        ++ (words (under p.restart_identity (codes " RESTART IDENTITY"))
            ++ words (under p.cascade (codes " CASCADE"))))

abbrev pub drop_index_tokens : DropIndexParams → List Token
drop_index_tokens p =
    words (codes "DROP INDEX ")
    ++ (words (under p.if_exists (codes "IF EXISTS "))
        ++ (table_tokens name p.schema p.index_name ++ words (under p.cascade (codes " CASCADE"))))

abbrev pub rename_table_tokens : RenameTableParams → List Token
rename_table_tokens p =
    alter_tokens p.schema p.table (words (codes " RENAME TO ") ++ name p.new_name)

abbrev pub rename_column_tokens : RenameColumnParams → List Token
rename_column_tokens p = alter_tokens p.schema p.table (
    words (codes " RENAME COLUMN ") ++ (name p.column ++ (words (codes " TO ") ++ name p.new_name)))

abbrev pub drop_column_tokens : DropColumnParams → List Token
drop_column_tokens p =
    alter_tokens p.schema p.table (
      words (codes " DROP COLUMN ")
      ++ (name p.column ++ words (under p.cascade (codes " CASCADE"))))

abbrev pub drop_constraint_tokens : DropForeignKeyParams → List Token
drop_constraint_tokens p = alter_tokens p.schema p.table (
    words (codes " DROP CONSTRAINT ")
    ++ (name p.constraint_name ++ words (under p.cascade (codes " CASCADE"))))

Reads-under :
    {b : Text} {us : List Token} (flag : Bool) (w : Text)
    → unmarked w ≡ true
    → Reads postgres b us
    → Reads postgres (under flag w ++ b) (words (under flag w) ++ us)
Reads-under true w h r = Reads-after quoter-IsLexed w h r
Reads-under false w h r = r

Reads-flag :
    {a : Text} {ts : List Token}
    → Reads postgres a ts
    → (flag : Bool) (w : Text) → is_phrase w ≡ true
    → Reads postgres (a ++ (under flag w ++ [])) (ts ++ words (under flag w))
Reads-flag {a} {ts} r true w h =
    subst (λ us. Reads postgres (a ++ (w ++ [])) (ts ++ us)) (append-nil (words w))
      (Reads-before quoter-IsLexed r w h)
Reads-flag {a} {ts} r false w h = rw (append-nil ts) (Reads-last quoter-IsLexed r)

Reads-cascade :
    {a : Text} {ts : List Token}
    → Reads postgres a ts
    → (flag : Bool)
    → Reads postgres
        (a ++ (under flag (codes " CASCADE") ++ []))
        (ts ++ words (under flag (codes " CASCADE")))
Reads-cascade r flag = Reads-flag r flag (codes " CASCADE") refl

Reads-flags :
    (schema table : Text) (restart cascade : Bool)
    → Reads postgres
        (table_name quoter schema table
          ++ (under restart (codes " RESTART IDENTITY")
              ++ (under cascade (codes " CASCADE") ++ [])))
        (table_tokens name schema table
          ++ (words (under restart (codes " RESTART IDENTITY"))
              ++ words (under cascade (codes " CASCADE"))))
Reads-flags schema table true cascade =
    let l = quoter-IsLexed in
    Reads-between l (Reads-table l schema table) (codes " RESTART IDENTITY") refl
      (Reads-cascade (Reads-nil l) cascade)
Reads-flags schema table false cascade =
    Reads-cascade (Reads-table quoter-IsLexed schema table) cascade

Reads-alter :
    {b : Text} {us : List Token} (schema table w : Text)
    → is_phrase w ≡ true
    → Reads postgres b us
    → Reads postgres
        (codes "ALTER TABLE " ++ (table_name quoter schema table ++ (w ++ b)))
        (alter_tokens schema table (words w ++ us))
Reads-alter schema table w h r =
    let l = quoter-IsLexed in
    Reads-after l (codes "ALTER TABLE ") refl (Reads-between l (Reads-table l schema table) w h r)

-- PostgreSQL reads the removal of a column as ALTER TABLE of the table with DROP COLUMN of the column,
-- and CASCADE exactly if it is asked for.
pub tokens-build_drop_column_query :
    (p : DropColumnParams) → tokens postgres (build_drop_column_query p).sql ≡ drop_column_tokens p
unfolding build_drop_column_query
tokens-build_drop_column_query p =
    let l = quoter-IsLexed in
    (Reads-alter p.schema p.table (codes " DROP COLUMN ") refl
      (Reads-cascade (l.reads_name p.column) p.cascade)).emitted

-- PostgreSQL reads the removal of a table, of its rows, of an index, of a column and of a constraint,
-- and the renaming of a table and of a column, as exactly these keywords around the quoted names of
-- the parameters, with IF EXISTS, RESTART IDENTITY and CASCADE exactly where they are asked for.
pub tokens-changes :
    (dt : DropTableParams) (tq : TruncateTableParams) (di : DropIndexParams) (dc : DropColumnParams)
    (df : DropForeignKeyParams) (rt : RenameTableParams) (rc : RenameColumnParams)
    → (tokens postgres (build_drop_table_query dt).sql ≡ drop_table_tokens dt)
      × (tokens postgres (build_truncate_table_query tq).sql ≡ truncate_tokens tq)
      × (tokens postgres (build_drop_index_query di).sql ≡ drop_index_tokens di)
      × (tokens postgres (build_drop_column_query dc).sql ≡ drop_column_tokens dc)
      × (tokens postgres (build_drop_foreign_key_query df).sql ≡ drop_constraint_tokens df)
      × (tokens postgres (build_rename_table_query rt).sql ≡ rename_table_tokens rt)
      × (tokens postgres (build_rename_column_query rc).sql ≡ rename_column_tokens rc)
unfolding build_drop_table_query build_truncate_table_query build_drop_index_query
    build_drop_foreign_key_query build_rename_table_query build_rename_column_query
    vaultsql.Sql.Columns.build_rename_column_query
tokens-changes dt tq di dc df rt rc =
    let l = quoter-IsLexed in
    (
      (Reads-after l (codes "DROP TABLE ") refl (
          Reads-under dt.if_exists (codes "IF EXISTS ") refl
            (Reads-cascade (Reads-table l dt.schema dt.table) dt.cascade))).emitted,
      (Reads-after l (codes "TRUNCATE TABLE ") refl
          (Reads-flags tq.schema tq.table tq.restart_identity tq.cascade)).emitted,
      (Reads-after l (codes "DROP INDEX ") refl (
          Reads-under di.if_exists (codes "IF EXISTS ") refl
            (Reads-cascade (Reads-table l di.schema di.index_name) di.cascade))).emitted,
      tokens-build_drop_column_query dc,
      (Reads-alter df.schema df.table (codes " DROP CONSTRAINT ") refl
          (Reads-cascade (l.reads_name df.constraint_name) df.cascade)).emitted,
      (Reads-alter rt.schema rt.table (codes " RENAME TO ") refl
          (Reads-last l (l.reads_name rt.new_name))).emitted,
      (Reads-alter rc.schema rc.table (codes " RENAME COLUMN ") refl (
          Reads-between l (l.reads_name rc.column) (codes " TO ") refl
            (Reads-last l (l.reads_name rc.new_name)))).emitted,
    )
