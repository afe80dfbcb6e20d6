-- ===== src/Catalog/FetchReads.antt =====
-- How a server reads the query for one row.
use vaultsql.Prelude.{true, false, List, ◌++◌, ◌≡◌, refl, Text, codes}
use vaultsql.Database.Mutations.{Value, null, undefined, string, number, boolean, other}
use vaultsql.Sql.Lexer.{Dialect, Token, words, tokens}
use vaultsql.Sql.Reads.{Reads}
use vaultsql.Sql.Quoter.{Quoter, IsLexed, name_token, value_token}
use vaultsql.Sql.Phrases.{unmarked, Reads-phrase, Reads-after, Reads-between, Reads-before}
use vaultsql.Sql.ClauseReads.{Reads-table}
use vaultsql.Sql.QueryTokens.{table_tokens}
use vaultsql.Catalog.Loads.{value_text, fetch_row_query}

-- What is not a string is written as it prints, which must have no quotation mark.
abbrev pub IsPlain : Value → Type 0
IsPlain (number t) = unmarked t ≡ true
IsPlain (other t) = unmarked t ≡ true
IsPlain _ = Unit

abbrev pub fetched_tokens : Value → List Token
fetched_tokens null = words (codes "null")
fetched_tokens undefined = words (codes "undefined")
fetched_tokens (string t) = value_token t
fetched_tokens (number t) = words t
fetched_tokens (boolean true) = words (codes "true")
fetched_tokens (boolean false) = words (codes "false")
fetched_tokens (other t) = words t

abbrev pub fetch_row_tokens : (Text → List Token) → Text → Text → Text → Value → List Token
fetch_row_tokens name schema table column value =
    words (codes "SELECT * FROM ")
    ++ (table_tokens name schema table
        ++ (words (codes " WHERE ")
            ++ (name column
                ++ (words (codes " = ") ++ (fetched_tokens value ++ words (codes " LIMIT 1"))))))

module _ {d : Dialect} {q : Quoter} (l : IsLexed d q) where
  Reads-value_text : (v : Value) → IsPlain v → Reads d (value_text q v) (fetched_tokens v)
  Reads-value_text null h = Reads-phrase l (codes "null") refl
  Reads-value_text undefined h = Reads-phrase l (codes "undefined") refl
  Reads-value_text (string t) h = l.reads_value t
  Reads-value_text (number t) h = Reads-phrase l t h
  Reads-value_text (boolean true) h = Reads-phrase l (codes "true") refl
  Reads-value_text (boolean false) h = Reads-phrase l (codes "false") refl
  Reads-value_text (other t) h = Reads-phrase l t h

  -- A dialect that reads quoted names and strings back reads the query for one row as SELECT * of
  -- the table, the condition that the column has the value, and LIMIT 1, and nothing else, if a
  -- value that is not a string prints without a quotation mark.
  pub tokens-fetch_row_query :
      (schema table column : Text) (value : Value)
      → IsPlain value
      → tokens d (fetch_row_query q schema table column value)
        ≡ fetch_row_tokens (name_token l) schema table column value
  unfolding fetch_row_query
  tokens-fetch_row_query schema table column value h =
      (Reads-after l (codes "SELECT * FROM ") refl (
        Reads-between l (Reads-table l schema table) (codes " WHERE ") refl (
          Reads-between l (l.reads_name column) (codes " = ") refl
            (Reads-before l (Reads-value_text value h) (codes " LIMIT 1") refl)))).emitted
