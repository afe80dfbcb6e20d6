-- ===== src/Sql/Clauses.antt =====
-- The clauses of a table query, which postgres/queryBuilder.ts and mysql/queryBuilder.ts (below
-- frontend/src/workbench/lib/databases) build by the same text. Each stands here once, over the
-- quoting of the dialect and its condition for one filter.
use vaultsql.Prelude.{
  ◌||◌, List, [], ◌∷◌, ◌++◌, map, keep, Option, none, some, Text, codes, concat, join, split, trim,
  has, truthy, ltb, ℤ, pos, negsuc, decimal, or_else, if◌then◌else◌,
}
use vaultsql.Database.Filters.{FilterInput, FilterMode, all_of, any_of}
use vaultsql.Database.Queries.{
  SortColumn, SortDirection, asc, desc, TableQueryParams, TableQueryResult,
}
use vaultsql.Sql.Quoter.{Quoter}

-- An absent list and an empty one are treated alike.
abbrev pub items {ℓ} : {A : Type ℓ} → Option (List A) → List A
items none = []
items (some xs) = xs

abbrev pub list_or {ℓ} : {A : Type ℓ} → Text → (List A → Text) → List A → Text
list_or d f [] = d
list_or d f (x ∷ xs) = f (x ∷ xs)

abbrev pub limit_part : Text → Option ℤ → List Text
limit_part word none = []
limit_part word (some (pos n)) = if ltb 0 n then (word ++ decimal n) ∷ [] else []
limit_part word (some (negsuc n)) = []

unfoldable pub build_limit_offset_clause : Option ℤ → Option ℤ → Text
build_limit_offset_clause limit offset =
    join (codes " ") (limit_part (codes "LIMIT ") limit ++ limit_part (codes "OFFSET ") offset)

abbrev pub upper_direction : SortDirection → Text
upper_direction asc = codes "ASC"
upper_direction desc = codes "DESC"

abbrev pub joiner : FilterMode → Text
joiner any_of = codes " OR "
joiner all_of = codes " AND "

abbrev pub raw_part : Option Text → List Text
raw_part none = []
raw_part (some []) = []
raw_part (some (c ∷ s)) = concat (codes "(" ∷ (c ∷ s) ∷ codes ")" ∷ []) ∷ []

-- A value without a wildcard of its own is searched for anywhere.
abbrev pub like_pattern : Text → Text
like_pattern value =
    let has_wildcard = has b'%' value || has b'_' value in
    if has_wildcard then value else concat (codes "%" ∷ value ∷ codes "%" ∷ [])

-- The parts of a list that are not blank.
abbrev pub in_items : Text → List Text
in_items value = keep truthy (map trim (split b',' value))

module _ (q : Quoter) where
  open q use {quote_identifier, escape_value}

  unfoldable pub escape_like_value : Text → Text
  escape_like_value value = escape_value (like_pattern value)

  unfoldable pub format_in_values : Text → Text
  format_in_values value =
      let values = join (codes ", ") (map escape_value (in_items value)) in
      if truthy values then values else codes "NULL"

  abbrev pub order_part : SortColumn → Text
  order_part s = concat (quote_identifier s.column ∷ codes " " ∷ upper_direction s.direction ∷ [])

  unfoldable pub build_order_by_clause : Option (List SortColumn) → Text
  build_order_by_clause sort =
      list_or [] (λ s. codes "ORDER BY " ++ join (codes ", ") (map order_part s)) (items sort)

  abbrev pub table_name : Text → Text → Text
  table_name schema table =
      concat (quote_identifier schema ∷ codes "." ∷ quote_identifier table ∷ [])

  abbrev pub select_clause : Option (List Text) → Text
  select_clause columns =
      list_or (codes "*") (λ cs. join (codes ", ") (map quote_identifier cs)) (items columns)

module _ (build_filter_condition : FilterInput → Text) where
  -- Several conditions are grouped; one stands alone.
  abbrev pub filter_part : FilterMode → List FilterInput → List Text
  filter_part mode [] = []
  filter_part mode (f ∷ []) = build_filter_condition f ∷ []
  filter_part mode (f ∷ g ∷ fs) =
      concat
        (codes "(" ∷ join (joiner mode) (map build_filter_condition (f ∷ g ∷ fs)) ∷ codes ")" ∷ [])
      ∷ []

  unfoldable pub build_where_clause : Option (List FilterInput) → Option Text → FilterMode → Text
  build_where_clause filters raw_where filter_mode =
      list_or [] (λ conditions. codes "WHERE " ++ join (codes " AND ") conditions)
        (filter_part filter_mode (items filters) ++ raw_part raw_where)

-- `parts.filter(Boolean).join('\n')`
abbrev pub lines : List Text → Text
lines parts = join (codes "\n") (keep truthy parts)

module _ (q : Quoter) (build_filter_condition : FilterInput → Text) where
  abbrev pub where_of : TableQueryParams → Text
  where_of p =
      build_where_clause build_filter_condition p.filters p.raw_where (or_else p.filter_mode all_of)

  unfoldable pub build_table_query : TableQueryParams → TableQueryResult
  build_table_query p =
      let from = codes "FROM " ++ table_name q p.schema p.table in
      record {
        sql = lines (
            (codes "SELECT " ++ select_clause q p.columns)
            ∷ from
            ∷ where_of p
            ∷ build_order_by_clause q p.sort
            ∷ build_limit_offset_clause p.limit p.offset
            ∷ []);
        count_sql = lines (codes "SELECT COUNT(*) as total" ∷ from ∷ where_of p ∷ []);
      }
