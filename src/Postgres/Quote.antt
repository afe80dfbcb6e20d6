-- ===== src/Postgres/Quote.antt =====
-- frontend/src/workbench/lib/databases/postgres/sqlUtils.ts, and how PostgreSQL reads it back.
use vaultsql.Prelude.{ℕ, false, ◌||◌, [], ◌∷◌, ◌≡◌, refl, Text, codes, concat, replace_all, ◌==◌}
use vaultsql.Sql.Lexer.{Dialect, quoted}
use vaultsql.Sql.Reads.{Reads}
use vaultsql.Sql.Doubling.{Reads-enclose, TakenAs-doubled}
use vaultsql.Sql.Quoter.{Quoter, IsLexed, quote_mark}

-- Names stand in double quotes and strings in single ones; a backslash is an ordinary character
-- (`standard_conforming_strings`, on by default).
abbrev pub postgres : Dialect
postgres = record { is_quote = λ c. c == b'\'' || c == b'"'; escapes = λ q. false }

unfoldable pub quote_identifier : Text → Text
quote_identifier identifier =
    concat (codes "\"" ∷ replace_all b'"' (codes "\"\"") identifier ∷ codes "\"" ∷ [])

unfoldable pub escape_value : Text → Text
escape_value value = concat (codes "'" ∷ replace_all b'\'' (codes "''") value ∷ codes "'" ∷ [])

abbrev pub quoter : Quoter
quoter = record { quote_identifier = quote_identifier; escape_value = escape_value }

Reads-name : (s : Text) → Reads postgres (quote_identifier s) (quoted b'"' s ∷ [])
unfolding quote_identifier
Reads-name s = Reads-enclose postgres b'"' refl (TakenAs-doubled postgres b'"' refl s)

Reads-value : (s : Text) → Reads postgres (escape_value s) (quoted quote_mark s ∷ [])
unfolding escape_value
Reads-value s = Reads-enclose postgres quote_mark refl (TakenAs-doubled postgres quote_mark refl s)

no_other_quote :
    (c : ℕ)
    → (c == b'\'') ≡ false
    → (c == b'"') ≡ false
    → (c == b'`') ≡ false
    → postgres.is_quote c ≡ false
no_other_quote c h k _ = rw (h, k)

-- PostgreSQL reads back every name and every string, whatever characters they hold: no text can
-- leave its quotes.
pub quoter-IsLexed : IsLexed postgres quoter
quoter-IsLexed = record {
  name_mark = b'"';
  reads_name = Reads-name;
  reads_value = Reads-value;
  no_other_quote = no_other_quote;
}
