-- ===== src/Postgres/Patterns.antt =====
-- The prefix filter of postgres/queryBuilder.ts doubles the single quotes of its value before
-- `escapeValue` doubles them again.
use vaultsql.Prelude.{false, List, [], ◌∷◌, ◌++◌, ◌≡◌, ◌↔◌, ap, sym, ◌∙◌, Text, codes, has}
use vaultsql.Database.Filters.{FilterInput, starts_with}
use vaultsql.Sql.Lexer.{Token, quoted, words, tokens}
use vaultsql.Sql.Quoter.{value_token, quote_mark}
use vaultsql.Sql.Growth.{replace_all-append_iff}
use vaultsql.Postgres.Quote.{postgres}
use vaultsql.Postgres.Query.{build_filter_condition}
use vaultsql.Postgres.QueryReads.{name, Reads-filter}

abbrev pub prefix_filter : Text → Text → FilterInput
prefix_filter column value = record { column = column; operator = starts_with; value = value }

-- A condition with one string behind seven other tokens.
abbrev string_of : List Token → Text
string_of (_ ∷ _ ∷ _ ∷ _ ∷ _ ∷ _ ∷ _ ∷ quoted _ s ∷ _) = s
string_of _ = []

-- The text that the server compares with LIKE for a prefix filter is the value followed by % exactly if
-- the value holds no single quote.
pub starts_with_pattern_iff :
    (column value : Text)
    → (tokens postgres (build_filter_condition (prefix_filter column value))
        ≡ name column ++ (words (codes " LIKE ") ++ value_token (value ++ codes "%")))
      ↔ (has quote_mark value ≡ false)
starts_with_pattern_iff column value =
    let read = (Reads-filter (prefix_filter column value)).emitted in
    let iff = replace_all-append_iff quote_mark value (codes "%") in
    (
      λ e. iff.0 (ap string_of (sym read ∙ e)),
      λ h.
          read
          ∙ ap (λ (s : Text). name column ++ (words (codes " LIKE ") ++ value_token s)) (iff.1 h),
    )
