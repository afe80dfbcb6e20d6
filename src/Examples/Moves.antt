-- ===== src/Examples/Moves.antt =====
-- An item moved within a list: taken out at one place and put in at another.
use vaultsql.Prelude.{
  ℕ, zero, suc, ◌<◌, not, ◌&&◌, List, [], ◌∷◌, ◌≡◌, ◌⊎◌, refl, arith, Text, same, length, get_elem?,
  keep, Option, none, some, Option-cases, inl, inr, codes, true, false,
}
use vaultsql.Grid.ColumnOrder.{is_in, index_of, reorder}
use vaultsql.Grid.Reordered.{remove_at, reorder_lem}

abbrev insert_at : ℕ → Text → List Text → List Text
insert_at zero x ys = x ∷ ys
insert_at (suc j) x [] = x ∷ []
insert_at (suc j) x (y ∷ ys) = y ∷ insert_at j x ys

abbrev put : Option Text → ℕ → List Text → List Text → List Text
put none j items rest = items
put (some x) j items rest = insert_at j x rest

abbrev move : List Text → ℕ → ℕ → List Text
move items i j = put (get_elem? items i) j items (remove_at items i)

none_below : (k : ℕ) → suc k < 1 → ⊥
none_below k e = omega (arith, e)

get_elem-insert_at :
    (j : ℕ) (x : Text) (ys : List Text)
    → j < suc (length ys)
    → get_elem? (insert_at j x ys) j ≡ some x
get_elem-insert_at zero x ys h = refl
get_elem-insert_at (suc j) x [] h = elim (none_below j h) [ ]
get_elem-insert_at (suc j) x (y ∷ ys) h = get_elem-insert_at j x ys (omega (arith, h))

remove_at-insert_at :
    (j : ℕ) (x : Text) (ys : List Text) → j < suc (length ys) → remove_at (insert_at j x ys) j ≡ ys
remove_at-insert_at zero x ys h = refl
remove_at-insert_at (suc j) x [] h = elim (none_below j h) [ ]
remove_at-insert_at (suc j) x (y ∷ ys) h = rw (remove_at-insert_at j x ys (omega (arith, h))) refl

length-remove_at :
    (items : List Text) (i : ℕ) (x : Text)
    → get_elem? items i ≡ some x
    → suc (length (remove_at items i)) ≡ length items
length-remove_at [] i x h = elim (no_item h) [ ]
  where
    no_item : {y : Text} → none ≡ some y → ⊥
    no_item e = cc
length-remove_at (y ∷ ys) zero x h = refl
length-remove_at (y ∷ ys) (suc i) x h = omega (arith, length-remove_at ys i x h)

get_elem-none : (items : List Text) (i : ℕ) → i < length items → get_elem? items i ≡ none → ⊥
get_elem-none [] i lt h = omega (arith, lt)
get_elem-none (x ∷ xs) zero lt h = cc
get_elem-none (x ∷ xs) (suc i) lt h = get_elem-none xs i (omega (arith, lt)) h

get_elem-move :
    (items : List Text) (i j : ℕ)
    → i < length items
    → j < length items
    → get_elem? (move items i j) j ≡ get_elem? items i
get_elem-move items i j lt lu = elim (Option-cases (get_elem? items i)) [
  | inl e ↦ elim (get_elem-none items i lt e) [ ]
  | inr (x, e) ↦
      rw e (
        get_elem-insert_at j x (remove_at items i)
          (omega (arith, lu, length-remove_at items i x e)))
]

remove_at-move :
    (items : List Text) (i j : ℕ)
    → i < length items
    → j < length items
    → remove_at (move items i j) j ≡ remove_at items i
remove_at-move items i j lt lu = elim (Option-cases (get_elem? items i)) [
  | inl e ↦ elim (get_elem-none items i lt e) [ ]
  | inr (x, e) ↦ rw e (
      remove_at-insert_at j x (remove_at items i) (omega (arith, lu, length-remove_at items i x e)))
]

abbrev columns : List Text
columns = codes "id" ∷ codes "name" ∷ codes "age" ∷ []

reorder_lem_example :
    let result = reorder move (codes "id") (codes "age") columns in
    (((is_in (codes "id") columns && is_in (codes "age") columns) ≡ false) × (result ≡ columns))
    ⊎ (((is_in (codes "id") columns && is_in (codes "age") columns) ≡ true)
        × (index_of (codes "id") result ≡ index_of (codes "age") columns)
        × (keep (λ c. not (same c (codes "id"))) result
            ≡ keep (λ c. not (same c (codes "id"))) columns))
reorder_lem_example =
    reorder_lem move get_elem-move remove_at-move (codes "id") (codes "age") columns
      (refl, (refl, (refl, tt)))
