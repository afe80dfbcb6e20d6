-- ===== src/Postgres/QueryReads.antt =====
-- What PostgreSQL reads in the queries of Postgres/Query.antt.
use vaultsql.Prelude.{true, List, [], ◌∷◌, ◌++◌, ◌≡◌, refl, Text, codes, concat, replace_all, join}
use vaultsql.Database.Filters.{
  FilterInput, eq, neq, gt, gte, lt, lte, contains, icontains, starts_with, ends_with, is_null,
  is_not_null, in_list, all_of, FilterOperator,
}
use vaultsql.Database.Queries.{TableQueryParams, ExportQueryParams, EstimatedCountParams}
use vaultsql.Sql.Lexer.{Token, words, tokens}
use vaultsql.Sql.Reads.{Reads}
use vaultsql.Sql.Quoter.{name_token, value_token}
use vaultsql.Sql.Clauses.{escape_like_value, raw_part, in_items, items, like_pattern}
use vaultsql.Sql.Phrases.{Reads-after, Reads-between, Reads-before, Reads-last, is_phrase}
use vaultsql.Sql.QueryTokens.{in_tokens, query_tokens, count_tokens, from_tokens, where_tokens}
use vaultsql.Sql.ClauseReads.{Reads-in_values}
use vaultsql.Sql.QueryReads.{Reads-query, Reads-count, Reads-fallback}
use vaultsql.Postgres.Quote.{postgres, quoter-IsLexed, quote_identifier, escape_value}
use vaultsql.Postgres.Query.{
  condition_on, build_filter_condition, build_table_query, table_params, build_export_query,
  build_estimated_count_query,
}

abbrev pub name : Text → List Token
name = name_token quoter-IsLexed

-- What follows the column in the condition that a filter stands for. The prefix and suffix patterns
-- hold the value with its single quotes doubled.
abbrev condition_tokens : FilterOperator → Text → List Token
condition_tokens eq value = words (codes " = ") ++ value_token value
condition_tokens neq value = words (codes " != ") ++ value_token value
condition_tokens gt value = words (codes " > ") ++ value_token value
condition_tokens gte value = words (codes " >= ") ++ value_token value
condition_tokens lt value = words (codes " < ") ++ value_token value
condition_tokens lte value = words (codes " <= ") ++ value_token value
condition_tokens contains value = words (codes " LIKE ") ++ value_token (like_pattern value)
condition_tokens icontains value = words (codes " ILIKE ") ++ value_token (like_pattern value)
condition_tokens starts_with value =
    words (codes " LIKE ")
    ++ value_token (concat (replace_all b'\'' (codes "''") value ∷ codes "%" ∷ []))
condition_tokens ends_with value =
    words (codes " LIKE ")
    ++ value_token (concat (codes "%" ∷ replace_all b'\'' (codes "''") value ∷ []))
condition_tokens is_null value = words (codes " IS NULL")
condition_tokens is_not_null value = words (codes " IS NOT NULL")
condition_tokens in_list value =
    words (codes " IN (") ++ (in_tokens (in_items value) ++ words (codes ")"))

abbrev pub filter_tokens : FilterInput → List Token
filter_tokens f = name f.column ++ condition_tokens f.operator f.value

module _ (column value : Text) where
  -- A quoted column, a comparison, and a string.
  Reads-comparison :
      (w : Text)
      → is_phrase w ≡ true
      → Reads postgres
          (concat (quote_identifier column ∷ w ∷ escape_value value ∷ []))
          (name column ++ (words w ++ value_token value))
  Reads-comparison w h =
      Reads-between quoter-IsLexed (quoter-IsLexed.reads_name column) w h
        (Reads-last quoter-IsLexed (quoter-IsLexed.reads_value value))

Reads-condition :
    (column value : Text) (operator : FilterOperator)
    → Reads postgres
        (condition_on (quote_identifier column) operator value)
        (name column ++ condition_tokens operator value)
unfolding condition_on escape_like_value
Reads-condition column value eq = Reads-comparison column value (codes " = ") refl
Reads-condition column value neq = Reads-comparison column value (codes " != ") refl
Reads-condition column value gt = Reads-comparison column value (codes " > ") refl
Reads-condition column value gte = Reads-comparison column value (codes " >= ") refl
Reads-condition column value lt = Reads-comparison column value (codes " < ") refl
Reads-condition column value lte = Reads-comparison column value (codes " <= ") refl
Reads-condition column value contains =
    Reads-comparison column (like_pattern value) (codes " LIKE ") refl
Reads-condition column value icontains =
    Reads-comparison column (like_pattern value) (codes " ILIKE ") refl
Reads-condition column value starts_with =
    Reads-comparison column (concat (replace_all b'\'' (codes "''") value ∷ codes "%" ∷ []))
      (codes " LIKE ") refl
Reads-condition column value ends_with =
    Reads-comparison column (concat (codes "%" ∷ replace_all b'\'' (codes "''") value ∷ []))
      (codes " LIKE ") refl
Reads-condition column value is_null =
    Reads-before quoter-IsLexed (quoter-IsLexed.reads_name column) (codes " IS NULL") refl
Reads-condition column value is_not_null =
    Reads-before quoter-IsLexed (quoter-IsLexed.reads_name column) (codes " IS NOT NULL") refl
Reads-condition column value in_list =
    Reads-between quoter-IsLexed (quoter-IsLexed.reads_name column) (codes " IN (") refl
      (Reads-before quoter-IsLexed (Reads-in_values quoter-IsLexed value) (codes ")") refl)

pub Reads-filter : (f : FilterInput) → Reads postgres (build_filter_condition f) (filter_tokens f)
unfolding build_filter_condition
Reads-filter f = Reads-condition f.column f.value f.operator

-- PostgreSQL reads the query that is built from structured filters exactly as specified: each name
-- and each value is one quoted text, whatever characters it holds, and only the clauses that apply
-- are there. So it reads the count query.
pub tokens-build_table_query :
    (p : TableQueryParams)
    → raw_part p.raw_where ≡ []
    → (tokens postgres (build_table_query p).sql ≡ query_tokens name filter_tokens p)
      × (tokens postgres (build_table_query p).count_sql ≡ count_tokens name filter_tokens p)
unfolding build_table_query
tokens-build_table_query p h = (
  (Reads-query quoter-IsLexed build_filter_condition filter_tokens Reads-filter p h).emitted,
  (Reads-count quoter-IsLexed build_filter_condition filter_tokens Reads-filter p h).emitted,
)

-- PostgreSQL reads an export query as the table query with the same columns, filters, order and
-- limits is specified, all filters joined by AND and none of them raw.
pub tokens-build_export_query :
    (p : ExportQueryParams)
    → tokens postgres (build_export_query p).sql ≡ query_tokens name filter_tokens (table_params p)
unfolding build_export_query
tokens-build_export_query p = (tokens-build_table_query (table_params p) refl).0

abbrev pub estimate_head : Text
estimate_head =
    codes
      "SELECT reltuples::int8 as count\nFROM pg_class c\nJOIN pg_catalog.pg_namespace n ON n.oid = c.relnamespace\nWHERE n.nspname = "

-- PostgreSQL reads the estimate as its fixed words with the schema's and the table's names as
-- strings, and the fallback as the count over the named table where every filter's condition holds.
pub tokens-build_estimated_count_query :
    (p : EstimatedCountParams)
    → (tokens postgres (build_estimated_count_query p).sql
        ≡ words estimate_head
          ++ (value_token p.schema
              ++ (words (codes "\n  AND c.relname = ") ++ value_token p.table)))
      × (tokens postgres (build_estimated_count_query p).fallback_sql
          ≡ join (words (codes "\n")) (
              words (codes "SELECT COUNT(*) as count")
              ∷ from_tokens name filter_tokens p.schema p.table
              ∷ where_tokens filter_tokens all_of (items p.filters)))
unfolding build_estimated_count_query
tokens-build_estimated_count_query p =
    let l = quoter-IsLexed in
    (
      (Reads-after l estimate_head refl (
          Reads-between l (l.reads_value p.schema) (codes "\n  AND c.relname = ") refl
            (Reads-last l (l.reads_value p.table)))).emitted,
      (Reads-fallback l build_filter_condition filter_tokens Reads-filter p.schema p.table
          p.filters).emitted,
    )
