-- ===== src/Grid/Reordered.antt =====
-- Dragging a column to the place of another (frontend/src/workbench/components/grid/useColumnOrder.ts).
use vaultsql.Prelude.{
  ℕ, zero, suc, ◌<◌, Bool, true, false, not, ◌&&◌, List, [], ◌∷◌, ◌≡◌, ◌⊎◌, refl, sym, ap, ◌∙◌,
  arith, Text, same, same_refl, same_sound, length, get_elem?, keep, none, some, Bool-cases, inl,
  inr,
}
use vaultsql.Grid.ColumnOrder.{is_in, index_of, reorder}
use vaultsql.Grid.Reconciled.{Distinct}

-- The list without the item at a place.
abbrev pub remove_at : List Text → ℕ → List Text
remove_at [] i = []
remove_at (x ∷ xs) zero = xs
remove_at (x ∷ xs) (suc i) = x ∷ remove_at xs i

abbrev is_other : Text → Text → Bool
is_other a c = not (same c a)

same_item {ℓ} : {A : Type ℓ} {x y : A} → some x ≡ some y → x ≡ y
same_item e = cc

no_item {ℓ} : {A : Type ℓ} {y : A} → none ≡ some y → ⊥
no_item e = cc

-- Where `indexOf` finds a column.
abbrev IsFound : Text → List Text → Type 0
IsFound a xs =
    ((index_of a xs ≡ none) × (is_in a xs ≡ false))
    ⊎ ((i : ℕ) × (index_of a xs ≡ some i)
        × (i < length xs)
        × (get_elem? xs i ≡ some a)
        × (is_in a xs ≡ true))

index_of_cases : (a : Text) (xs : List Text) → IsFound a xs
unfolding index_of
index_of_cases a [] = inl (refl, refl)
index_of_cases a (x ∷ xs) = elim (Bool-cases (same x a)) [
  | inl e ↦ inr (
    0,
    rw (e, index_of) refl,
    omega arith,
    ap (λ y. some y) (same_sound x a e),
    ground (arith, e),
  )
  | inr e ↦ elim (index_of_cases a xs) [
    | inl (f, out) ↦ inl (rw (e, f, index_of) refl, ground (arith, e, out))
    | inr (i, f, lt, here, there) ↦
        inr (suc i, rw (e, f, index_of) refl, omega (arith, lt), here, ground (arith, there))
  ]
]

is_in_of_get_elem :
    (a : Text) (xs : List Text) (i : ℕ) → get_elem? xs i ≡ some a → is_in a xs ≡ true
is_in_of_get_elem a [] i h = elim (no_item h) [ ]
is_in_of_get_elem a (x ∷ xs) zero h = rw (same_item h) (ground (arith, same_refl a))
is_in_of_get_elem a (x ∷ xs) (suc i) h = ground (arith, is_in_of_get_elem a xs i h)

is_in-remove_at :
    (a : Text) (xs : List Text) (i : ℕ)
    → Distinct xs
    → get_elem? xs i ≡ some a
    → is_in a (remove_at xs i) ≡ false
is_in-remove_at a [] i d h = elim (no_item h) [ ]
is_in-remove_at a (x ∷ xs) zero (out, d) h = ap (λ y. is_in y xs) (sym (same_item h)) ∙ out
is_in-remove_at a (x ∷ xs) (suc i) (out, d) h =
    let rest = is_in-remove_at a xs i d h in
    let there = is_in_of_get_elem a xs i h in
    elim (Bool-cases (same x a)) [
      | inl e ↦
          let twin = ap (λ y. is_in y xs) (same_sound x a e) in ground (arith, twin, out, there)
      | inr e ↦ ground (arith, e, rest)
    ]

index_of-at :
    (a : Text) (xs : List Text) (j : ℕ)
    → get_elem? xs j ≡ some a
    → is_in a (remove_at xs j) ≡ false
    → index_of a xs ≡ some j
unfolding index_of
index_of-at a [] j h out = elim (no_item h) [ ]
index_of-at a (x ∷ xs) zero h out =
    let e : same x a ≡ true = ap (λ y. same y a) (same_item h) ∙ same_refl a in
    rw (e, index_of) refl
index_of-at a (x ∷ xs) (suc j) h out =
    let e : same x a ≡ false = ground (arith, out) in
    let rest = index_of-at a xs j h (ground (arith, out)) in rw (e, rest, index_of) refl

keep-remove_at :
    (a : Text) (xs : List Text) (j : ℕ)
    → get_elem? xs j ≡ some a
    → keep (is_other a) xs ≡ keep (is_other a) (remove_at xs j)
keep-remove_at a [] j h = refl
keep-remove_at a (x ∷ xs) zero h =
    let e : same x a ≡ true = ap (λ y. same y a) (same_item h) ∙ same_refl a in rw e refl
keep-remove_at a (x ∷ xs) (suc j) h = elim (Bool-cases (same x a)) [
  | inl e ↦ rw e (keep-remove_at a xs j h)
  | inr e ↦ rw e (ap (λ l. x ∷ l) (keep-remove_at a xs j h))
]

-- The library's `arrayMove` moves the item at place `i` to place `j`, and the others stay in order.
module _ (array_move : List Text → ℕ → ℕ → List Text)
    (lands : (items : List Text) (i j : ℕ)
      → i < length items
      → j < length items
      → get_elem? (array_move items i j) j ≡ get_elem? items i)
    (leaves : (items : List Text) (i j : ℕ)
      → i < length items
      → j < length items
      → remove_at (array_move items i j) j ≡ remove_at items i) where
  -- The columns are distinct, and the library's function moves the item at its first place to its
  -- second and leaves the others in order. If one of the two columns is not there, the order stays as
  -- it was. Else the dragged column is found then at the place where the one that it was dropped on
  -- was found, and the other columns are the same ones in the same order.
  pub reorder_lem :
      (active_id over_id : Text) (items : List Text)
      → Distinct items
      → let result = reorder array_move active_id over_id items in
        (((is_in active_id items && is_in over_id items) ≡ false) × (result ≡ items))
        ⊎ (((is_in active_id items && is_in over_id items) ≡ true)
            × (index_of active_id result ≡ index_of over_id items)
            × (keep (λ c. not (same c active_id)) result
                ≡ keep (λ c. not (same c active_id)) items))
  unfolding reorder
  reorder_lem a o items d = elim (index_of_cases a items) [
    | inl (e, out) ↦ inl (ground (arith, out), rw (e, reorder) refl)
    | inr (i, e, lt, at_i, a_in) ↦ elim (index_of_cases o items) [
      | inl (f, out) ↦ inl (ground (arith, a_in, out), rw (e, f, reorder) refl)
      | inr (j, f, lu, at_j, o_in) ↦
          let moved = lands items i j lt lu ∙ at_i in
          let others = leaves items i j lt lu in
          let gone = ap (is_in a) others ∙ is_in-remove_at a items i d at_i in
          inr (
            ground (arith, a_in, o_in),
            rw (e, f, reorder) (index_of-at a (array_move items i j) j moved gone),
            rw (e, f, reorder)
                (keep-remove_at a (array_move items i j) j moved
                  ∙ (ap (keep (is_other a)) others ∙ sym (keep-remove_at a items i at_i))),
          )
    ]
  ]
