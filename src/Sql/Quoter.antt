-- ===== src/Sql/Quoter.antt =====
-- The interface between the statement builders and a dialect: how the dialect quotes, and that the
-- server reads back what was quoted.
use vaultsql.Prelude.{false, ℕ, ◌≡◌, ◌==◌, List, [], ◌∷◌, Text}
use vaultsql.Sql.Lexer.{Dialect, Token, quoted}
use vaultsql.Sql.Reads.{Reads}

pub record Quoter : Type 0 where
  pub quote_identifier : Text → Text
  pub escape_value : Text → Text

abbrev pub quote_mark : ℕ
quote_mark = b'\''

pub record IsLexed (d : Dialect) (q : Quoter) : Type 0 where
  pub name_mark : ℕ
  pub reads_name : (s : Text) → Reads d (q.quote_identifier s) (quoted name_mark s ∷ [])
  pub reads_value : (s : Text) → Reads d (q.escape_value s) (quoted quote_mark s ∷ [])
  -- Only the three marks of ASCII may be quotes.
  pub no_other_quote :
      (c : ℕ)
      → (c == b'\'') ≡ false
      → (c == b'"') ≡ false
      → (c == b'`') ≡ false
      → d.is_quote c ≡ false

-- What the server must read for a quoted name and a quoted string.
module _ {d : Dialect} {q : Quoter} (l : IsLexed d q) where
  abbrev pub name_token : Text → List Token
  name_token s = quoted l.name_mark s ∷ []

abbrev pub value_token : Text → List Token
value_token s = quoted quote_mark s ∷ []
