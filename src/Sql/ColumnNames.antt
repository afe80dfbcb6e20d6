-- ===== src/Sql/ColumnNames.antt =====
-- What a server reads in the schema changes that the two dialects share.
use vaultsql.Prelude.{true, List, [], ◌∷◌, ◌++◌, Option, none, some, ◌≡◌, refl, Text, codes}
use vaultsql.Database.Ddl.{
  ForeignKeyAction, cascade, set_null, restrict, no_action, set_default, RenameColumnParams,
  AddForeignKeyParams,
}
use vaultsql.Sql.Lexer.{Dialect}
use vaultsql.Sql.Quoter.{Quoter, IsLexed}
use vaultsql.Sql.Phrases.{unmarked, unmarked-append}
use vaultsql.Sql.Columns.{
  name_or, generate_foreign_key_name, action_part, action_text, build_rename_column_query,
  build_add_foreign_key_query,
}
use vaultsql.Sql.Names.{
  Names, Names-name, Names-after, Names-between, Names-last, Names-end, Names-table,
}

unmarked-action_text : (a : ForeignKeyAction) → unmarked (action_text a) ≡ true
unmarked-action_text cascade = refl
unmarked-action_text set_null = refl
unmarked-action_text restrict = refl
unmarked-action_text no_action = refl
unmarked-action_text set_default = refl

pub unmarked-action_part :
    (w : Text) (a : Option ForeignKeyAction) → unmarked w ≡ true → unmarked (action_part w a) ≡ true
unmarked-action_part w none h = refl
unmarked-action_part w (some a) h = unmarked-append w (action_text a) h (unmarked-action_text a)

-- The names of a foreign key, its own behind the table's.
abbrev pub foreign_key_names : AddForeignKeyParams → List Text
foreign_key_names p =
    p.schema
    ∷ p.table
    ∷ name_or p.constraint_name (generate_foreign_key_name p.table p.column)
    ∷ p.column
    ∷ p.ref_schema
    ∷ p.ref_table
    ∷ p.ref_column
    ∷ []

-- What follows the referenced column.
abbrev on_update_text : AddForeignKeyParams → Text
on_update_text p = action_part (codes " ON UPDATE ") p.on_update ++ []

abbrev actions : AddForeignKeyParams → Text
actions p = codes ")" ++ (action_part (codes " ON DELETE ") p.on_delete ++ on_update_text p)

unmarked-actions : (p : AddForeignKeyParams) → unmarked (actions p) ≡ true
unmarked-actions p =
    unmarked-append (action_part (codes " ON DELETE ") p.on_delete) (on_update_text p)
      (unmarked-action_part (codes " ON DELETE ") p.on_delete refl)
      (unmarked-append (action_part (codes " ON UPDATE ") p.on_update) []
        (unmarked-action_part (codes " ON UPDATE ") p.on_update refl) refl)

module _ {d : Dialect} {q : Quoter} (l : IsLexed d q) where
  pub Names-rename_column :
      (p : RenameColumnParams)
      → Names d
          (build_rename_column_query q p).sql
          (p.schema ∷ p.table ∷ p.column ∷ p.new_name ∷ [])
  unfolding build_rename_column_query
  Names-rename_column p = Names-after l (codes "ALTER TABLE ") refl (
      Names-between l (Names-table l p.schema p.table) (codes " RENAME COLUMN ") refl (
        Names-between l (Names-name l p.column) (codes " TO ") refl
          (Names-last l (Names-name l p.new_name))))

  pub Names-add_foreign_key :
      (p : AddForeignKeyParams)
      → Names d (build_add_foreign_key_query q p).sql (foreign_key_names p)
  unfolding build_add_foreign_key_query
  Names-add_foreign_key p =
      let fk_name = name_or p.constraint_name (generate_foreign_key_name p.table p.column) in
      Names-after l (codes "ALTER TABLE ") refl (
        Names-between l (Names-table l p.schema p.table) (codes " ADD CONSTRAINT ") refl (
          Names-between l (Names-name l fk_name) (codes " FOREIGN KEY (") refl (
            Names-between l (Names-name l p.column) (codes ") REFERENCES ") refl (
              Names-between l (Names-table l p.ref_schema p.ref_table) (codes "(") refl
                (Names-end l (Names-name l p.ref_column) (actions p) (unmarked-actions p))))))
