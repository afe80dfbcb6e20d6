-- ===== src/Grid/Selected.antt =====
-- Which rows a click selects.
use vaultsql.Prelude.{
  ℕ, zero, suc, ◌+◌, ◌≤◌, ◌<◌, min, max, Bool, true, false, not, ◌&&◌, ◌||◌, List, [], ◌∷◌, some,
  Text, ◌≡◌, refl, sym, ap, ◌∙◌, arith, same, same_comm, truthy, same_refl, same_sound, length,
  get_elem?, ltb, leb, ◌==◌, if◌then◌else◌, Bool-cases, inl, inr,
}
use vaultsql.Grid.ColumnOrder.{is_in, index_of}
use vaultsql.Grid.Reconciled.{Distinct, is_in-append, is_in-keep}
use vaultsql.Grid.Selection.{
  GridSelection, anchor, add_key, add_range, toggle_key, toggle_row, select_range, rounds,
  select_all,
}

is_in-get : (xs : List Text) (i : ℕ) (k : Text) → get_elem? xs i ≡ some k → is_in k xs ≡ true
is_in-get [] i k h = cc
is_in-get (x ∷ xs) zero k h = let e : x ≡ k = cc in rw (← e) (ground (arith, same_refl x))
is_in-get (x ∷ xs) (suc i) k h = ground (arith, is_in-get xs i k)

-- An item that is found elsewhere is another one.
same_later :
    (x k : Text) (xs : List Text) (m : ℕ)
    → is_in x xs ≡ false
    → get_elem? xs m ≡ some k
    → (same x k ≡ false) × (same k x ≡ false)
same_later x k xs m n g = (
  elim (Bool-cases (same x k)) [
    | inl e ↦ absurd (clash (rw (same_sound x k e) (is_in-get xs m k g)) n)
    | inr e ↦ e
  ],
  elim (Bool-cases (same k x)) [
    | inl e ↦ absurd (clash (rw (sym (same_sound k x e)) (is_in-get xs m k g)) n)
    | inr e ↦ e
  ],
)
  where
    clash : {b : Bool} → b ≡ true → b ≡ false → ⊥
    clash p q = cc

-- In a list without repetition, equal items have equal places.
same-get :
    (xs : List Text) (i m : ℕ) (a k : Text)
    → Distinct xs
    → get_elem? xs i ≡ some a
    → get_elem? xs m ≡ some k
    → same a k ≡ (i == m)
same-get [] i m a k d h g = cc
same-get (x ∷ xs) zero zero a k d h g = let e : k ≡ a = cc in rw e (same_refl a)
same-get (x ∷ xs) zero (suc m) a k (n, d) h g =
    let e : a ≡ x = cc in rw e ((same_later x k xs m n g).0 ∙ ground arith)
same-get (x ∷ xs) (suc i) zero a k (n, d) h g =
    let e : k ≡ x = cc in rw e ((same_later x a xs i n h).1 ∙ ground arith)
same-get (x ∷ xs) (suc i) (suc m) a k (n, d) h g = ground (arith, same-get xs i m a k d h g)

pub index_of-get :
    (xs : List Text) (i : ℕ) (a : Text)
    → Distinct xs
    → get_elem? xs i ≡ some a
    → index_of a xs ≡ some i
unfolding index_of
index_of-get [] i a d h = cc
index_of-get (x ∷ xs) zero a d h = let e : x ≡ a = cc in rw (e, same_refl a) refl
index_of-get (x ∷ xs) (suc i) a (n, d) h =
    rw ((same_later x a xs i n h).0, index_of-get xs i a d h) refl

same_in : (a k : Text) (xs : List Text) → is_in a xs ≡ true → (is_in k xs || same a k) ≡ is_in k xs
same_in a k xs h = elim (Bool-cases (same a k)) [
  | inl e ↦ rw (sym (same_sound a k e), h) refl
  | inr e ↦ ground arith
]

is_in-add_key :
    (a k : Text) (selected : List Text)
    → is_in k (add_key (some a) selected) ≡ (is_in k selected || same a k)
unfolding add_key
is_in-add_key a k selected = elim (Bool-cases (is_in a selected)) [
  | inl e ↦ rw e (sym (same_in a k selected e))
  | inr e ↦ rw e (is_in-append k selected (a ∷ []) ∙ ground arith)
]

module _ (keys : List Text) (d : Distinct keys) where
  get_below : (i : ℕ) → i < length keys → (k : Text) × (get_elem? keys i ≡ some k)
  get_below i h = at keys i h
    where
      at : (xs : List Text) (i : ℕ) → i < length xs → (k : Text) × (get_elem? xs i ≡ some k)
      at [] i h = elim h [ ]
      at (x ∷ xs) zero h = (x, refl)
      at (x ∷ xs) (suc i) h = at xs i (omega arith)

  -- The loop adds exactly the rows at its places.
  is_in-add_range :
      (n i m : ℕ) (k : Text) (selected : List Text)
      → i + n ≤ length keys
      → get_elem? keys m ≡ some k
      → is_in k (add_range keys i n selected) ≡ (is_in k selected || (leb i m && ltb m (i + n)))
  unfolding add_range
  is_in-add_range zero i m k selected h g = ground arith
  is_in-add_range (suc n) i m k selected h g =
      let (a, at) = get_below i (omega arith) in
      rw at (
        is_in-add_range n (suc i) m k (add_key (some a) selected) (omega arith) g
        ∙ rw (is_in-add_key a k selected, same-get keys i m a k d at g)
            (between i n m (is_in k selected)))
    where
      between :
          (i n m : ℕ) (b : Bool)
          → ((b || (i == m)) || (leb (suc i) m && ltb m (suc i + n)))
            ≡ (b || (leb i m && ltb m (i + suc n)))
      between i n m b = ground arith

get_bound : (xs : List Text) (i : ℕ) (a : Text) → get_elem? xs i ≡ some a → i < length xs
get_bound [] i a h = cc
get_bound (x ∷ xs) zero a h = omega arith
get_bound (x ∷ xs) (suc i) a h = omega (arith, get_bound xs i a h)

abbrev pub within : ℕ → ℕ → ℕ → Bool
within i j m = leb (min i j) m && leb m (max i j)

module _ (keys : List Text) (d : Distinct keys) where
  is_in-between :
      (i j m : ℕ) (k : Text) (selected : List Text)
      → i < length keys
      → j < length keys
      → get_elem? keys m ≡ some k
      → is_in k (add_range keys (min i j) (rounds i j) selected)
        ≡ (is_in k selected || within i j m)
  is_in-between i j m k selected hi hj g =
      is_in-add_range keys d (rounds i j) (min i j) m k selected (omega arith) g
      ∙ same_bounds (is_in k selected)
    where
      same_bounds :
          (b : Bool)
          → (b || (leb (min i j) m && ltb m (min i j + rounds i j))) ≡ (b || within i j m)
      same_bounds b = ground arith

anchor-some : (from : Text) → truthy from ≡ true → anchor true (some from) ≡ some from
anchor-some [] h = cc
anchor-some (c ∷ k) h = refl

-- Only the membership of the key itself is turned round.
is_in-toggle_key :
    (a k : Text) (selected : List Text)
    → is_in k (toggle_key a selected)
      ≡ (if same a k then not (is_in k selected) else is_in k selected)
unfolding toggle_key
is_in-toggle_key a k selected = elim (Bool-cases (same a k)) [
  | inl e ↦
      let a_is_k = same_sound a k e in
      elim (Bool-cases (is_in a selected)) [
        | inl h ↦
            rw (h, is_in-keep (λ x. not (same x a)) k selected, same_comm k a, e)
              (rw (ap (λ x. is_in x selected) (sym a_is_k), h) refl)
        | inr h ↦
            rw (h, is_in-append k selected (a ∷ []), e)
              (rw (ap (λ x. is_in x selected) (sym a_is_k), h) refl)
      ]
  | inr e ↦ elim (Bool-cases (is_in a selected)) [
    | inl h ↦ rw (h, is_in-keep (λ x. not (same x a)) k selected, same_comm k a, e) refl
    | inr h ↦ rw (h, is_in-append k selected (a ∷ []), e) (ground arith)
  ]
]

-- Let the row keys be distinct, and the rows at places i, j and m be `from`, `to` and k. Selecting
-- the range from `from` to `to` selects k exactly if m is between i and j, whichever comes first; a
-- click on `to` with the shift key, if `from` was clicked last, adds the same rows; a click without
-- it turns the row j alone; and selecting all selects k.
pub select_range_lem :
    (keys : List Text) (i j m : ℕ) (from to k : Text) (s : GridSelection)
    → Distinct keys
    → get_elem? keys i ≡ some from
    → get_elem? keys j ≡ some to
    → get_elem? keys m ≡ some k
    → s.last ≡ some from
    → truthy from ≡ true
    → (is_in k (select_range keys from to s).selected ≡ within i j m)
      × (is_in k (toggle_row keys to true s).selected ≡ (is_in k s.selected || within i j m))
      × (is_in k (toggle_row keys to false s).selected
          ≡ (if j == m then not (is_in k s.selected) else is_in k s.selected))
      × (is_in k (select_all keys s).selected ≡ true)
unfolding select_range toggle_row select_all
select_range_lem keys i j m from to k s d hf ht hk hl nonempty =
    let bi = get_bound keys i from hf in
    let bj = get_bound keys j to ht in
    let bm = get_bound keys m k hk in
    let at_i = index_of-get keys i from d hf in
    let at_j = index_of-get keys j to d ht in
    (
      rw (at_i, at_j) (is_in-between keys d i j m k [] bi bj hk),
      rw (hl, anchor-some from nonempty, at_i, at_j)
          (is_in-between keys d i j m k s.selected bi bj hk),
      is_in-toggle_key to k s.selected ∙ rw (same-get keys j m to k d ht hk) refl,
      is_in-add_range keys d (length keys) 0 m k [] (omega arith) hk ∙ ground arith,
    )
