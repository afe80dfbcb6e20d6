-- ===== src/Sql/QueryReads.antt =====
-- A table query is read as the tokens of the specification.
use vaultsql.Prelude.{List, [], ◌∷◌, ◌++◌, map, Option, none, ◌≡◌, refl, Text, codes, join, or_else}
use vaultsql.Database.Filters.{FilterInput, FilterMode, all_of, any_of}
use vaultsql.Database.Queries.{TableQueryParams}
use vaultsql.Sql.Lexer.{Dialect, Token, words}
use vaultsql.Sql.Reads.{Reads}
use vaultsql.Sql.Quoter.{Quoter, IsLexed, name_token}
use vaultsql.Sql.Joined.{
  ReadsAll, one_more, ReadsPart, absent, present, ReadsAll-part, ReadsAll-last_part, ReadsAll-map,
}
use vaultsql.Sql.Phrases.{trivial, Reads-phrase, Reads-after, Reads-before, Reads-join}
use vaultsql.Sql.Clauses.{
  items, list_or, build_limit_offset_clause, joiner, raw_part, build_order_by_clause, table_name,
  filter_part, build_where_clause, build_table_query, lines,
}
use vaultsql.Sql.QueryTokens.{connective, where_tokens, from_tokens, query_tokens, count_tokens}
use vaultsql.Sql.ClauseReads.{Reads-table, Reads-select, Reads-order, Reads-limit}

module _ {d : Dialect} {q : Quoter} (l : IsLexed d q) where
  -- What the caller proves of its condition for one filter.
  module _ (build_filter_condition : FilterInput → Text) (condition : FilterInput → List Token)
      (reads_condition : (f : FilterInput) → Reads d (build_filter_condition f) (condition f)) where
    ReadsAll-conditions :
        (fs : List FilterInput) → ReadsAll d (map build_filter_condition fs) (map condition fs)
    ReadsAll-conditions fs =
        ReadsAll-map d (λ _. Unit {0}) build_filter_condition condition (λ f _. reads_condition f)
          fs (trivial fs)

    Reads-conditions :
        (mode : FilterMode) (f : FilterInput) (fs : List FilterInput)
        → Reads d
            (join (joiner mode) (map build_filter_condition (f ∷ fs)))
            (join (connective mode) (map condition (f ∷ fs)))
    Reads-conditions all_of f fs =
        Reads-join l (codes " AND ") refl (ReadsAll-conditions (f ∷ fs)) refl
    Reads-conditions any_of f fs =
        Reads-join l (codes " OR ") refl (ReadsAll-conditions (f ∷ fs)) refl

    where_of_filters :
        (mode : FilterMode) (fs : List FilterInput)
        → ReadsPart d
            (list_or []
              (λ conditions. codes "WHERE " ++ join (codes " AND ") conditions)
              (filter_part build_filter_condition mode fs ++ []))
            (where_tokens condition mode fs)
    where_of_filters mode [] = absent
    where_of_filters mode (f ∷ []) =
        present refl (Reads-after l (codes "WHERE ") refl (reads_condition f))
    where_of_filters mode (f ∷ g ∷ fs) = present refl (
        Reads-after l (codes "WHERE ") refl (
          Reads-after l (codes "(") refl
            (Reads-before l (Reads-conditions mode f (g ∷ fs)) (codes ")") refl)))

    Reads-where :
        (mode : FilterMode) (filters : Option (List FilterInput)) (raw : Option Text)
        → raw_part raw ≡ []
        → ReadsPart d
            (build_where_clause build_filter_condition filters raw mode)
            (where_tokens condition mode (items filters))
    unfolding build_where_clause
    Reads-where mode filters raw no_raw = rw no_raw (where_of_filters mode (items filters))

    Reads-from :
        (schema table : Text)
        → Reads d
            (codes "FROM " ++ table_name q schema table)
            (from_tokens (name_token l) condition schema table)
    Reads-from schema table = Reads-after l (codes "FROM ") refl (Reads-table l schema table)

    -- A query without a raw condition is read as the specification says.
    pub Reads-query :
        (p : TableQueryParams)
        → raw_part p.raw_where ≡ []
        → Reads d
            (build_table_query q build_filter_condition p).sql
            (query_tokens (name_token l) condition p)
    unfolding build_table_query
    Reads-query p no_raw =
        let mode = or_else p.filter_mode all_of in
        let order = build_order_by_clause q p.sort in
        let limit = build_limit_offset_clause p.limit p.offset in
        Reads-join l (codes "\n") refl
          (one_more (Reads-after l (codes "SELECT ") refl (Reads-select l p.columns)) (
            one_more (Reads-from p.schema p.table) (
              ReadsAll-part d (order ∷ limit ∷ []) (Reads-where mode p.filters p.raw_where no_raw) (
                ReadsAll-part d (limit ∷ []) (Reads-order l p.sort)
                  (ReadsAll-last_part d (Reads-limit l p.limit p.offset))))))
          refl

    pub Reads-count :
        (p : TableQueryParams)
        → raw_part p.raw_where ≡ []
        → Reads d
            (build_table_query q build_filter_condition p).count_sql
            (count_tokens (name_token l) condition p)
    unfolding build_table_query
    Reads-count p no_raw =
        Reads-join l (codes "\n") refl
          (one_more (Reads-phrase l (codes "SELECT COUNT(*) as total") refl) (
            one_more (Reads-from p.schema p.table) (
              ReadsAll-last_part d
                (Reads-where (or_else p.filter_mode all_of) p.filters p.raw_where no_raw))))
          refl

    -- The fallback of the estimated count, which has its own words before FROM.
    pub Reads-fallback :
        (schema table : Text) (filters : Option (List FilterInput))
        → Reads d
            (lines (
              codes "SELECT COUNT(*) as count"
              ∷ (codes "FROM " ++ table_name q schema table)
              ∷ build_where_clause build_filter_condition filters none all_of
              ∷ []))
            (join (words (codes "\n")) (
              words (codes "SELECT COUNT(*) as count")
              ∷ from_tokens (name_token l) condition schema table
              ∷ where_tokens condition all_of (items filters)))
    Reads-fallback schema table filters =
        Reads-join l (codes "\n") refl
          (one_more (Reads-phrase l (codes "SELECT COUNT(*) as count") refl) (
            one_more (Reads-from schema table)
              (ReadsAll-last_part d (Reads-where all_of filters none refl))))
          refl
