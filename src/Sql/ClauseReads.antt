-- ===== src/Sql/ClauseReads.antt =====
-- The SELECT list, the order and the limits of a table query are read as the tokens of the
-- specification.
use vaultsql.Prelude.{
  ℕ, arith, zero, suc, ap, sym, ◌∙◌, true, List, [], ◌∷◌, ◌++◌, map, Option, none, some, ◌≡◌, refl,
  Text, codes, join, truthy, ltb, ℤ, pos, negsuc, if◌then◌else◌, All, All-append, Bool-cases, inl,
  inr,
}
use vaultsql.Database.Queries.{SortColumn, SortDirection, asc, desc}
use vaultsql.Sql.Lexer.{Dialect, words}
use vaultsql.Sql.Reads.{Reads}
use vaultsql.Sql.Quoter.{Quoter, IsLexed, name_token, value_token}
use vaultsql.Sql.Joined.{
  ReadsAll, none_left, one_more, ReadsPart, absent, present, ReadsAll-map, truthy_of_Reads,
}
use vaultsql.Sql.Phrases.{
  unmarked, unmarked-decimal, trivial, Reads-phrase, Reads-after, Reads-between, Reads-last,
  Reads-join, Reads-names,
}
use vaultsql.Sql.Clauses.{
  items, limit_part, build_limit_offset_clause, upper_direction, in_items, format_in_values,
  order_part, build_order_by_clause, table_name, select_clause,
}
use vaultsql.Sql.QueryTokens.{
  number_line, direction_word, in_tokens, table_tokens, select_tokens, order_item, order_tokens,
  limit_tokens, one_line,
}

-- A keyword with a number behind it.
abbrev IsKeyword : Text → Type 0
IsKeyword t = (unmarked t ≡ true) × (truthy t ≡ true)

-- The limit is written only if it is positive, and so is the offset.
IsKeyword-limit_part :
    (c : ℕ) (w : Text) (n : Option ℤ)
    → unmarked (c ∷ w) ≡ true
    → All IsKeyword (limit_part (c ∷ w) n)
IsKeyword-limit_part c w none h = tt
IsKeyword-limit_part c w (some (pos n)) h = elim (Bool-cases (ltb 0 n)) [
  | inl e ↦ rw e ((unmarked-decimal (c ∷ w) n h, refl), tt)
  | inr e ↦ rw e tt
]
IsKeyword-limit_part c w (some (negsuc n)) h = tt

truthy-join : (sep t : Text) (ts : List Text) → truthy t ≡ true → truthy (join sep (t ∷ ts)) ≡ true
truthy-join sep [] ts h = cc
truthy-join sep (c ∷ t) [] h = refl
truthy-join sep (c ∷ t) (u ∷ ts) h = refl

map-append : (ts us : List Text) → map words (ts ++ us) ≡ map words ts ++ map words us
map-append [] us = refl
map-append (t ∷ ts) us = ap (λ l. words t ∷ l) (map-append ts us)

positive : (n : ℕ) → ltb 0 (suc n) ≡ true
positive n = ground arith

-- The keywords that are written are those of the specification.
words-limit_part : (w : Text) (o : Option ℤ) → map words (limit_part w o) ≡ number_line w o
words-limit_part w none = refl
words-limit_part w (some (pos zero)) = refl
words-limit_part w (some (pos (suc n))) = rw (positive n) refl
words-limit_part w (some (negsuc n)) = refl

words-limit_parts :
    (limit offset : Option ℤ)
    → map words (limit_part (codes "LIMIT ") limit ++ limit_part (codes "OFFSET ") offset)
      ≡ number_line (codes "LIMIT ") limit ++ number_line (codes "OFFSET ") offset
words-limit_parts limit offset =
    map-append (limit_part (codes "LIMIT ") limit) (limit_part (codes "OFFSET ") offset)
    ∙ rw (words-limit_part (codes "LIMIT ") limit, words-limit_part (codes "OFFSET ") offset)

module _ {d : Dialect} {q : Quoter} (l : IsLexed d q) where
  Reads-values :
      (v : Text) (vs : List Text)
      → Reads d
          (join (codes ", ") (map q.escape_value (v ∷ vs)))
          (join (words (codes ", ")) (map value_token (v ∷ vs)))
  Reads-values v vs =
      Reads-join l (codes ", ") refl
        (ReadsAll-map d (λ _. Unit {0}) q.escape_value value_token (λ a _. l.reads_value a) (v ∷ vs)
          (trivial (v ∷ vs)))
        refl

  in_list_of : List Text → Text
  in_list_of vs =
      let values = join (codes ", ") (map q.escape_value vs) in
      if truthy values then values else codes "NULL"

  Reads-in_list : (vs : List Text) → Reads d (in_list_of vs) (in_tokens vs)
  unfolding in_list_of
  Reads-in_list [] = Reads-phrase l (codes "NULL") refl
  Reads-in_list (v ∷ []) =
      let r = Reads-values v [] in rw (truthy_of_Reads d (q.escape_value v) r) r
  Reads-in_list (v ∷ w ∷ vs) =
      let r = Reads-values v (w ∷ vs) in
      rw (truthy_of_Reads d (join (codes ", ") (map q.escape_value (v ∷ w ∷ vs))) r) r

  pub Reads-in_values : (v : Text) → Reads d (format_in_values q v) (in_tokens (in_items v))
  unfolding format_in_values in_list_of
  Reads-in_values v = Reads-in_list (in_items v)

  pub Reads-table :
      (schema table : Text)
      → Reads d (table_name q schema table) (table_tokens (name_token l) schema table)
  Reads-table schema table =
      Reads-between l (l.reads_name schema) (codes ".") refl (Reads-last l (l.reads_name table))

  pub Reads-select :
      (columns : Option (List Text))
      → Reads d (select_clause q columns) (select_tokens (name_token l) (items columns))
  Reads-select none = Reads-phrase l (codes "*") refl
  Reads-select (some []) = Reads-phrase l (codes "*") refl
  Reads-select (some (c ∷ cs)) = Reads-names l c cs

  Reads-direction : (dir : SortDirection) → Reads d (upper_direction dir) (direction_word dir)
  Reads-direction asc = Reads-phrase l (codes "ASC") refl
  Reads-direction desc = Reads-phrase l (codes "DESC") refl

  Reads-order_item : (s : SortColumn) → Reads d (order_part q s) (order_item (name_token l) s)
  Reads-order_item s =
      Reads-between l (l.reads_name s.column) (codes " ") refl
        (Reads-last l (Reads-direction s.direction))

  pub Reads-order :
      (sort : Option (List SortColumn))
      → ReadsPart d (build_order_by_clause q sort) (order_tokens (name_token l) (items sort))
  unfolding build_order_by_clause
  Reads-order none = absent
  Reads-order (some []) = absent
  Reads-order (some (s ∷ ss)) = present refl (
      Reads-after l (codes "ORDER BY ") refl (
        Reads-join l (codes ", ") refl
          (ReadsAll-map d (λ _. Unit {0}) (order_part q) (order_item (name_token l))
            (λ a _. Reads-order_item a) (s ∷ ss) (trivial (s ∷ ss)))
          refl))

  ReadsAll-words : (ts : List Text) → All IsKeyword ts → ReadsAll d ts (map words ts)
  ReadsAll-words [] h = none_left
  ReadsAll-words (t ∷ ts) ((h, _), hs) = one_more (Reads-phrase l t h) (ReadsAll-words ts hs)

  Reads-one_line :
      (ts : List Text)
      → All IsKeyword ts
      → ReadsPart d (join (codes " ") ts) (one_line (map words ts))
  Reads-one_line [] h = absent
  Reads-one_line (t ∷ ts) ((h, k), hs) =
      present (truthy-join (codes " ") t ts k)
        (Reads-join l (codes " ") refl (ReadsAll-words (t ∷ ts) ((h, k), hs)) refl)

  pub Reads-limit :
      (limit offset : Option ℤ)
      → ReadsPart d (build_limit_offset_clause limit offset) (limit_tokens limit offset)
  unfolding build_limit_offset_clause
  Reads-limit limit offset = rw (sym (words-limit_parts limit offset)) (
      Reads-one_line (limit_part (codes "LIMIT ") limit ++ limit_part (codes "OFFSET ") offset) (
        All-append IsKeyword (limit_part (codes "LIMIT ") limit)
          (limit_part (codes "OFFSET ") offset)
          (IsKeyword-limit_part b'L' (codes "IMIT ") limit refl)
          (IsKeyword-limit_part b'O' (codes "FFSET ") offset refl)))
