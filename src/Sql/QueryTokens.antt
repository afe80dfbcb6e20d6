-- ===== src/Sql/QueryTokens.antt =====
-- What a server must read in a table query: the specification that the builders are measured
-- against. Words of the statement stand as they are, and names and strings as quoted texts.
use vaultsql.Prelude.{
  List, [], ◌∷◌, ◌++◌, map, Option, Text, codes, join, or_else, ℤ, pos, some, suc, decimal,
}
use vaultsql.Database.Filters.{FilterInput, FilterMode, all_of, any_of}
use vaultsql.Database.Queries.{SortColumn, SortDirection, asc, desc, TableQueryParams}
use vaultsql.Sql.Lexer.{Token, words}
use vaultsql.Sql.Quoter.{value_token}
use vaultsql.Sql.Clauses.{items}

abbrev pub comma_list {ℓ} : {A : Type ℓ} → (A → List Token) → List A → List Token
comma_list f xs = join (words (codes ", ")) (map f xs)

-- A `IN` list without an item is `NULL`, which no row matches.
abbrev pub in_tokens : List Text → List Token
in_tokens [] = words (codes "NULL")
in_tokens (v ∷ vs) = comma_list value_token (v ∷ vs)

abbrev pub direction_word : SortDirection → List Token
direction_word asc = words (codes "ASC")
direction_word desc = words (codes "DESC")

abbrev pub connective : FilterMode → List Token
connective any_of = words (codes " OR ")
connective all_of = words (codes " AND ")

-- A keyword and a number, which is only there if it is given and positive.
abbrev pub number_line : Text → Option ℤ → List (List Token)
number_line word (some (pos (suc n))) = words (word ++ decimal (suc n)) ∷ []
number_line word _ = []

module _ (name : Text → List Token) where
  abbrev pub table_tokens : Text → Text → List Token
  table_tokens schema table = name schema ++ (words (codes ".") ++ name table)

  abbrev pub select_tokens : List Text → List Token
  select_tokens [] = words (codes "*")
  select_tokens (c ∷ cs) = comma_list name (c ∷ cs)

  abbrev pub order_item : SortColumn → List Token
  order_item s = name s.column ++ (words (codes " ") ++ direction_word s.direction)

  abbrev pub order_tokens : List SortColumn → List (List Token)
  order_tokens [] = []
  order_tokens (s ∷ ss) = (words (codes "ORDER BY ") ++ comma_list order_item (s ∷ ss)) ∷ []

module _ (condition : FilterInput → List Token) where
  abbrev pub where_tokens : FilterMode → List FilterInput → List (List Token)
  where_tokens mode [] = []
  where_tokens mode (f ∷ []) = (words (codes "WHERE ") ++ condition f) ∷ []
  where_tokens mode (f ∷ g ∷ fs) =
      (words (codes "WHERE ")
        ++ (words (codes "(")
            ++ (join (connective mode) (map condition (f ∷ g ∷ fs)) ++ words (codes ")"))))
      ∷ []

abbrev pub one_line : List (List Token) → List (List Token)
one_line [] = []
one_line (x ∷ xs) = join (words (codes " ")) (x ∷ xs) ∷ []

abbrev pub limit_tokens : Option ℤ → Option ℤ → List (List Token)
limit_tokens limit offset =
    one_line (number_line (codes "LIMIT ") limit ++ number_line (codes "OFFSET ") offset)

module _ (name : Text → List Token) (condition : FilterInput → List Token) where
  abbrev pub from_tokens : Text → Text → List Token
  from_tokens schema table = words (codes "FROM ") ++ table_tokens name schema table

  abbrev pub query_where : TableQueryParams → List (List Token)
  query_where p = where_tokens condition (or_else p.filter_mode all_of) (items p.filters)

  -- The lines of the query, without those that do not apply.
  abbrev pub query_tokens : TableQueryParams → List Token
  query_tokens p = join (words (codes "\n")) (
      (words (codes "SELECT ") ++ select_tokens name (items p.columns))
      ∷ from_tokens p.schema p.table
      ∷ (query_where p ++ (order_tokens name (items p.sort) ++ limit_tokens p.limit p.offset)))

  abbrev pub count_tokens : TableQueryParams → List Token
  count_tokens p =
      join (words (codes "\n"))
        (words (codes "SELECT COUNT(*) as total") ∷ from_tokens p.schema p.table ∷ query_where p)
