-- ===== src/Mysql/Quote.antt =====
-- frontend/src/workbench/lib/databases/mysql/sqlUtils.ts, and how MySQL reads it back.
use vaultsql.Prelude.{
  ℕ, false, not, ◌||◌, [], ◌∷◌, ◌++◌, ◌≡◌, refl, sym, ap, arith, Text, codes, concat, replace_all,
  ◌==◌, if◌then◌else◌, append_assoc, append-nil,
}
use vaultsql.Sql.Lexer.{Dialect, inside, quoted, after, emits, backslash}
use vaultsql.Sql.Reads.{Reads}
use vaultsql.Sql.Doubling.{Reads-enclose, TakenAs, TakenAs-doubled}
use vaultsql.Sql.Quoter.{Quoter, IsLexed, quote_mark}

-- Names stand in backticks and strings in single or double quotes, where a backslash escapes.
abbrev pub mysql : Dialect
mysql = record {
  is_quote = λ c. c == b'\'' || c == b'"' || c == b'`';
  escapes = λ q. not (q == b'`');
}

unfoldable pub quote_identifier : Text → Text
quote_identifier identifier =
    concat (codes "`" ∷ replace_all b'`' (codes "``") identifier ∷ codes "`" ∷ [])

abbrev pub escaped_value : Text → Text
escaped_value value = replace_all backslash (codes "\\\\") (replace_all b'\'' (codes "''") value)

unfoldable pub escape_value : Text → Text
escape_value value = concat (codes "'" ∷ escaped_value value ∷ codes "'" ∷ [])

abbrev pub quoter : Quoter
quoter = record { quote_identifier = quote_identifier; escape_value = escape_value }

replace_all-append :
    (c : ℕ) (by s t : Text) → replace_all c by (s ++ t) ≡ replace_all c by s ++ replace_all c by t
replace_all-append c by [] t = refl
replace_all-append c by (x ∷ s) t = rw (replace_all-append c by s t, append_assoc)

-- What one character of a value becomes.
abbrev escaped_char : ℕ → Text
escaped_char c =
    replace_all backslash (codes "\\\\") (if c == quote_mark then codes "''" else c ∷ [])

escaped_value-cons : (c : ℕ) (s : Text) → escaped_value (c ∷ s) ≡ escaped_char c ++ escaped_value s
escaped_value-cons c s =
    replace_all-append backslash (codes "\\\\") (if c == quote_mark then codes "''" else c ∷ [])
      (replace_all quote_mark (codes "''") s)

after-escaped_char :
    (acc : Text) (c : ℕ) (t : Text)
    → after mysql (inside quote_mark acc) (escaped_char c ++ t)
      ≡ after mysql (inside quote_mark (acc ++ c ∷ [])) t
unfolding after
after-escaped_char acc c t = ground arith

emits-escaped_char :
    (acc : Text) (c : ℕ) (t : Text)
    → emits mysql (inside quote_mark acc) (escaped_char c ++ t)
      ≡ emits mysql (inside quote_mark (acc ++ c ∷ [])) t
unfolding emits
emits-escaped_char acc c t = ground arith

after-escaped_value :
    (acc s : Text)
    → after mysql (inside quote_mark acc) (escaped_value s) ≡ inside quote_mark (acc ++ s)
after-escaped_value acc [] = unfold after in ap (inside quote_mark) (sym (append-nil acc))
after-escaped_value acc (c ∷ s) =
    rw (escaped_value-cons c s, after-escaped_char acc c, after-escaped_value (acc ++ c ∷ []) s)
      (ap (inside quote_mark) (append_assoc acc (c ∷ []) s))

emits-escaped_value : (acc s : Text) → emits mysql (inside quote_mark acc) (escaped_value s) ≡ []
emits-escaped_value acc [] = unfold emits in refl
emits-escaped_value acc (c ∷ s) =
    rw (escaped_value-cons c s, emits-escaped_char acc c) (emits-escaped_value (acc ++ c ∷ []) s)

TakenAs-escaped_value : (s : Text) → TakenAs mysql quote_mark (escaped_value s) s
TakenAs-escaped_value s = record {
  taken = after-escaped_value [] s;
  silent = emits-escaped_value [] s;
}

Reads-name : (s : Text) → Reads mysql (quote_identifier s) (quoted b'`' s ∷ [])
unfolding quote_identifier
Reads-name s = Reads-enclose mysql b'`' refl (TakenAs-doubled mysql b'`' refl s)

Reads-value : (s : Text) → Reads mysql (escape_value s) (quoted quote_mark s ∷ [])
unfolding escape_value
Reads-value s = Reads-enclose mysql quote_mark refl (TakenAs-escaped_value s)

no_other_quote :
    (c : ℕ)
    → (c == b'\'') ≡ false
    → (c == b'"') ≡ false
    → (c == b'`') ≡ false
    → mysql.is_quote c ≡ false
no_other_quote c h k g = rw (h, k, g)

-- MySQL reads back every name and every string, backslashes and quotes included: no text can leave
-- its quotes.
pub quoter-IsLexed : IsLexed mysql quoter
quoter-IsLexed = record {
  name_mark = b'`';
  reads_name = Reads-name;
  reads_value = Reads-value;
  no_other_quote = no_other_quote;
}
