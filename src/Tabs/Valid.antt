-- ===== src/Tabs/Valid.antt =====
-- The invariant of the tab bar, and that opening a tab keeps it.
use vaultsql.Prelude.{
  ℕ, ◌+◌, ◌≤◌, true, false, ◌||◌, List, [], ◌∷◌, ◌++◌, Option, none, some, ◌≡◌, refl, arith, Text,
  same, same_refl, if◌then◌else◌, Bool-cases, inl, inr,
}
use vaultsql.Tabs.Store.{
  TabDescriptor, TabsState, is_open, add_tab, place_preview, as_preview, add_preview_tab,
}

-- No two tabs have one id.
abbrev pub Distinct : List TabDescriptor → Type 0
Distinct [] = Unit
Distinct (t ∷ ts) = (is_open t.id ts ≡ false) × Distinct ts

abbrev pub previews : List TabDescriptor → ℕ
previews [] = 0
previews (t ∷ ts) = (if t.is_preview then 1 else 0) + previews ts

-- The active tab, if there is one, is open.
abbrev pub IsActiveOpen : Option Text → List TabDescriptor → Type 0
IsActiveOpen none tabs = Unit
IsActiveOpen (some a) tabs = is_open a tabs ≡ true

pub record IsValid (s : TabsState) : Type 0 where
  pub distinct : Distinct s.tabs
  pub one_preview : previews s.tabs ≤ 1
  pub active_open : IsActiveOpen s.active s.tabs

-- Text comparison is symmetric.
pub same_comm : (a b : Text) → same a b ≡ same b a
same_comm [] [] = refl
same_comm [] (y ∷ ys) = refl
same_comm (x ∷ xs) [] = refl
same_comm (x ∷ xs) (y ∷ ys) = ground (arith, same_comm xs ys)

is_open-append :
    (a : Text) (xs ys : List TabDescriptor) → is_open a (xs ++ ys) ≡ (is_open a xs || is_open a ys)
is_open-append a [] ys = refl
is_open-append a (x ∷ xs) ys = ground (arith, is_open-append a xs ys)

Distinct-append :
    (tab : TabDescriptor) (ts : List TabDescriptor)
    → is_open tab.id ts ≡ false
    → Distinct ts
    → Distinct (ts ++ tab ∷ [])
Distinct-append tab [] h d = (refl, tt)
Distinct-append tab (t ∷ ts) h (k, d) = (
  rw is_open-append (ground (arith, same_comm tab.id t.id)),
  Distinct-append tab ts (ground arith) d,
)

previews-append : (xs ys : List TabDescriptor) → previews (xs ++ ys) ≡ previews xs + previews ys
previews-append [] ys = omega arith
previews-append (x ∷ xs) ys = omega (arith, previews-append xs ys)

is_open_last :
    (tab : TabDescriptor) (ts : List TabDescriptor) → is_open tab.id (ts ++ tab ∷ []) ≡ true
is_open_last tab ts = rw (is_open-append tab.id ts (tab ∷ [])) (ground (arith, same_refl tab.id))

pub add_tab-IsValid :
    (tab : TabDescriptor) (s : TabsState)
    → tab.is_preview ≡ false
    → IsValid s
    → IsValid (add_tab tab s)
unfolding add_tab
add_tab-IsValid tab s h v = elim (Bool-cases (is_open tab.id s.tabs)) [
  | inl e ↦ rw e (record { distinct = v.distinct; one_preview = v.one_preview; active_open = e })
  | inr e ↦ rw e (record {
    distinct = Distinct-append tab s.tabs e v.distinct;
    one_preview = rw (previews-append s.tabs (tab ∷ []), h) (omega (arith, v.one_preview));
    active_open = is_open_last tab s.tabs;
  })
]

-- A replaced preview leaves fewer ids, and the new one.
is_open-place_preview :
    (a : Text) (tab : TabDescriptor) (ts : List TabDescriptor)
    → is_open a ts ≡ false
    → same tab.id a ≡ false
    → is_open a (place_preview tab ts) ≡ false
unfolding place_preview
is_open-place_preview a tab [] h k = ground arith
is_open-place_preview a tab (t ∷ ts) h k = ground (arith, is_open-place_preview a tab ts)

Distinct-place_preview :
    (tab : TabDescriptor) (ts : List TabDescriptor)
    → is_open tab.id ts ≡ false
    → Distinct ts
    → Distinct (place_preview tab ts)
unfolding place_preview
Distinct-place_preview tab [] h d = (refl, tt)
Distinct-place_preview tab (t ∷ ts) h (k, d) = elim (Bool-cases t.is_preview) [
  | inl e ↦ rw e (ground arith, d)
  | inr e ↦ rw e (
    is_open-place_preview t.id tab ts k (ground (arith, same_comm tab.id t.id)),
    Distinct-place_preview tab ts (ground arith) d,
  )
]

previews-place_preview :
    (tab : TabDescriptor) (ts : List TabDescriptor)
    → tab.is_preview ≡ true
    → previews ts ≤ 1
    → previews (place_preview tab ts) ≤ 1
unfolding place_preview
previews-place_preview tab [] h k = ground arith
previews-place_preview tab (t ∷ ts) h k = ground (arith, previews-place_preview tab ts)

is_open-place_preview_self :
    (tab : TabDescriptor) (ts : List TabDescriptor) → is_open tab.id (place_preview tab ts) ≡ true
unfolding place_preview
is_open-place_preview_self tab [] = ground (arith, same_refl tab.id)
is_open-place_preview_self tab (t ∷ ts) =
    ground (arith, same_refl tab.id, is_open-place_preview_self tab ts)

pub add_preview_tab-IsValid :
    (tab : TabDescriptor) (s : TabsState) → IsValid s → IsValid (add_preview_tab tab s)
unfolding add_preview_tab
add_preview_tab-IsValid tab s v = elim (Bool-cases (is_open tab.id s.tabs)) [
  | inl e ↦ rw e (record { distinct = v.distinct; one_preview = v.one_preview; active_open = e })
  | inr e ↦ rw e (record {
    distinct = Distinct-place_preview (as_preview tab) s.tabs e v.distinct;
    one_preview = previews-place_preview (as_preview tab) s.tabs refl v.one_preview;
    active_open = is_open-place_preview_self (as_preview tab) s.tabs;
  })
]
