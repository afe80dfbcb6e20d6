-- ===== src/Tabs/Close.antt =====
-- Closing a tab.
use vaultsql.Prelude.{
  ℕ, zero, suc, ◌≤◌, ◌<◌, min, true, false, not, List, [], ◌∷◌, ◌++◌, Option, none, some, ◌≡◌, refl,
  arith, Text, same, same_refl, same_sound, keep, length, length-append, append-nil, get_elem?,
  if◌then◌else◌, Bool-cases, Option-cases, inl, inr,
}
use vaultsql.Tabs.Store.{
  TabDescriptor, TabsState, has_id, is_open, find_index, id_of, next_active, is_active, close_tab,
}
use vaultsql.Tabs.Valid.{Distinct, previews, IsActiveOpen, IsValid}

-- The tabs that stay.
abbrev pub without : Text → List TabDescriptor → List TabDescriptor
without tab_id tabs = keep (λ tab. not (has_id tab_id tab)) tabs

module _ (tab_id : Text) where
  is_open-without :
      (a : Text) (ts : List TabDescriptor)
      → is_open a ts ≡ false
      → is_open a (without tab_id ts) ≡ false
  is_open-without a [] h = refl
  is_open-without a (t ∷ ts) h = ground (arith, is_open-without a ts)

  -- A tab with another id stays open.
  is_open-without_ne :
      (a : Text) (ts : List TabDescriptor)
      → same a tab_id ≡ false
      → is_open a ts ≡ true
      → is_open a (without tab_id ts) ≡ true
  is_open-without_ne a [] n h = cc
  is_open-without_ne a (t ∷ ts) n h = elim (Bool-cases (same t.id a)) [
    | inl e ↦ let kept : has_id tab_id t ≡ false = rw (same_sound t.id a e) n in ground arith
    | inr e ↦ ground (arith, is_open-without_ne a ts)
  ]

  Distinct-without : (ts : List TabDescriptor) → Distinct ts → Distinct (without tab_id ts)
  Distinct-without [] d = tt
  Distinct-without (t ∷ ts) (h, d) = elim (Bool-cases (has_id tab_id t)) [
    | inl e ↦ rw e (Distinct-without ts d)
    | inr e ↦ rw e (is_open-without t.id ts h, Distinct-without ts d)
  ]

  previews-without : (ts : List TabDescriptor) → previews (without tab_id ts) ≤ previews ts
  previews-without [] = omega arith
  previews-without (t ∷ ts) = ground (arith, previews-without ts)

IsActiveOpen-cons :
    (t : TabDescriptor) (a : Option Text) (ts : List TabDescriptor)
    → IsActiveOpen a ts
    → IsActiveOpen a (t ∷ ts)
IsActiveOpen-cons t none ts h = tt
IsActiveOpen-cons t (some a) ts h = ground arith

-- A tab of the list is open.
is_open_of_get :
    (ts : List TabDescriptor) (i : ℕ) → i < length ts → IsActiveOpen (id_of (get_elem? ts i)) ts
is_open_of_get [] i h = elim h [ ]
is_open_of_get (t ∷ ts) zero h = ground (arith, same_refl t.id)
is_open_of_get (t ∷ ts) (suc i) h =
    IsActiveOpen-cons t (id_of (get_elem? ts i)) ts (is_open_of_get ts i (omega arith))

IsActiveOpen-next_active : (i : ℕ) (ts : List TabDescriptor) → IsActiveOpen (next_active i ts) ts
unfolding next_active
IsActiveOpen-next_active i [] = tt
IsActiveOpen-next_active i (t ∷ ts) = is_open_of_get (t ∷ ts) (min i (length ts)) (omega arith)

active_after :
    (tab_id : Text) (i : ℕ) (a : Option Text) (ts : List TabDescriptor)
    → IsActiveOpen a ts
    → IsActiveOpen
        (if is_active a tab_id then next_active i (without tab_id ts) else a)
        (without tab_id ts)
active_after tab_id i none ts h = tt
active_after tab_id i (some a) ts h = elim (Bool-cases (same a tab_id)) [
  | inl e ↦ rw e (IsActiveOpen-next_active i (without tab_id ts))
  | inr e ↦ rw e (is_open-without_ne tab_id a ts e h)
]

pub close_tab-IsValid : (tab_id : Text) (s : TabsState) → IsValid s → IsValid (close_tab tab_id s)
unfolding close_tab
close_tab-IsValid tab_id s v = elim (Option-cases (find_index tab_id s.tabs)) [
  | inl e ↦ rw (e, close_tab) v
  | inr (i, e) ↦
      rw (e, close_tab)
        (record {
          distinct = Distinct-without tab_id s.tabs v.distinct;
          one_preview = omega (arith, previews-without tab_id s.tabs, v.one_preview);
          active_open = active_after tab_id i s.active s.tabs v.active_open;
        })
]

-- The next tab, as the user sees the bar: the neighbour on the right, or on the left of the last.
abbrev pub neighbour : List TabDescriptor → List TabDescriptor → Option Text
neighbour left (t ∷ right) = some t.id
neighbour [] [] = none
neighbour (t ∷ []) [] = some t.id
neighbour (t ∷ u ∷ left) [] = neighbour (u ∷ left) []

find_index-append :
    (left right : List TabDescriptor) (tab : TabDescriptor)
    → is_open tab.id left ≡ false
    → find_index tab.id (left ++ tab ∷ right) ≡ some (length left)
unfolding find_index
find_index-append [] right tab h = ground (arith, same_refl tab.id)
find_index-append (t ∷ left) right tab h = ground (arith, find_index-append left right tab)

without-absent :
    (tab_id : Text) (ts : List TabDescriptor) → is_open tab_id ts ≡ false → without tab_id ts ≡ ts
without-absent tab_id [] h = refl
without-absent tab_id (t ∷ ts) h = ground (arith, without-absent tab_id ts)

without-append :
    (left right : List TabDescriptor) (tab : TabDescriptor)
    → is_open tab.id left ≡ false
    → is_open tab.id right ≡ false
    → without tab.id (left ++ tab ∷ right) ≡ left ++ right
without-append [] right tab h k = ground (arith, same_refl tab.id, without-absent tab.id right)
without-append (t ∷ left) right tab h k = ground (arith, without-append left right tab)

min_left : (a b : ℕ) → a ≤ b → min a b ≡ a
min_left a b h = omega arith

min_right : (a b : ℕ) → b ≤ a → min a b ≡ b
min_right a b h = omega arith

get_at :
    (left right : List TabDescriptor) (u : TabDescriptor)
    → get_elem? (left ++ u ∷ right) (length left) ≡ some u
get_at [] right u = refl
get_at (t ∷ left) right u = get_at left right u

id_of_last :
    (left : List TabDescriptor) (t : TabDescriptor)
    → id_of (get_elem? (t ∷ left) (length left)) ≡ neighbour (t ∷ left) []
id_of_last [] t = refl
id_of_last (u ∷ left) t = id_of_last left u

next_active-append :
    (left right : List TabDescriptor)
    → next_active (length left) (left ++ right) ≡ neighbour left right
unfolding next_active
next_active-append [] [] = refl
next_active-append [] (t ∷ right) = rw (min_left 0 (length right) (omega arith)) refl
next_active-append (t ∷ left) (u ∷ right) = rw (
  min_left (suc (length left)) (length (left ++ u ∷ right))
      (omega (arith, length-append left (u ∷ right))),
  get_at left right u,
)
next_active-append (t ∷ left) [] =
    rw (append-nil left, min_right (suc (length left)) (length left) (omega arith))
      (id_of_last left t)

-- Closing the active tab takes it out, leaves the others in their order, and activates its
-- neighbour on the right, or the one on the left if it was the last; with no other tab left none is
-- active.
pub close_tab-active :
    (left right : List TabDescriptor) (tab : TabDescriptor)
    → is_open tab.id left ≡ false
    → is_open tab.id right ≡ false
    → close_tab tab.id (record { tabs = left ++ tab ∷ right; active = some tab.id })
      ≡ record { tabs = left ++ right; active = neighbour left right }
unfolding close_tab
close_tab-active left right tab h k = rw (
  close_tab,
  find_index-append left right tab h,
  without-append left right tab h k,
  same_refl tab.id,
  next_active-append left right,
)
