-- ===== src/Sql/RowTokens.antt =====
-- What a server must read in a row mutation: the specification that the builders are measured
-- against.
use vaultsql.Prelude.{Bool, true, false, List, ◌≡◌, ◌++◌, Text, codes, if◌then◌else◌}
use vaultsql.Database.Mutations.{
  Value, null, undefined, string, number, boolean, other, PrimaryKeyValue, MutationColumnValue,
  InsertParams, UpdateParams, DeleteParams,
}
use vaultsql.Sql.Lexer.{Token, words}
use vaultsql.Sql.Quoter.{value_token}
use vaultsql.Sql.Phrases.{unmarked}
use vaultsql.Sql.Rows.{written}
use vaultsql.Sql.QueryTokens.{comma_list, table_tokens}

-- A flag, null and undefined make NULL; strings and other objects are quoted.
abbrev pub literal_tokens : Value → Bool → List Token
literal_tokens v true = words (codes "NULL")
literal_tokens null false = words (codes "NULL")
literal_tokens undefined false = words (codes "NULL")
literal_tokens (string s) false = value_token s
literal_tokens (number s) false = words s
literal_tokens (boolean b) false = words (if b then codes "TRUE" else codes "FALSE")
literal_tokens (other s) false = value_token s

-- `String` prints a number without quotation marks.
abbrev pub IsPrinted : Value → Type 0
IsPrinted (number s) = unmarked s ≡ true
IsPrinted _ = Unit

abbrev pub IsPrintedColumn : MutationColumnValue → Type 0
IsPrintedColumn col = IsPrinted col.value

abbrev pub cell_tokens : MutationColumnValue → List Token
cell_tokens col = literal_tokens col.value col.is_null

module _ (name : Text → List Token) where
  abbrev pub key_tokens : PrimaryKeyValue → List Token
  key_tokens k = name k.column ++ (words (codes " = ") ++ literal_tokens k.value false)

  abbrev pub assignment_tokens : MutationColumnValue → List Token
  assignment_tokens col = name col.column ++ (words (codes " = ") ++ cell_tokens col)

  -- Columns and values stand in the same order, and those with a default are in neither list.
  abbrev pub insert_tokens : InsertParams → List Token
  insert_tokens p =
      words (codes "INSERT INTO ")
      ++ (table_tokens name p.schema p.table
          ++ (words (codes " (")
              ++ (comma_list (λ c. name c.column) (written p.values)
                  ++ (words (codes ") VALUES (")
                      ++ (comma_list cell_tokens (written p.values) ++ words (codes ")"))))))

  abbrev pub update_tokens : UpdateParams → List Token
  update_tokens p =
      words (codes "UPDATE ")
      ++ (table_tokens name p.schema p.table
          ++ (words (codes " SET ")
              ++ (comma_list assignment_tokens (written p.values)
                  ++ (words (codes " WHERE ") ++ key_tokens p.primary_key))))

  abbrev pub delete_tokens : DeleteParams → List Token
  delete_tokens p =
      words (codes "DELETE FROM ")
      ++ (table_tokens name p.schema p.table
          ++ (words (codes " WHERE ") ++ key_tokens p.primary_key))
