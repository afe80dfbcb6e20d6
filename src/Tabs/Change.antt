-- ===== src/Tabs/Change.antt =====
-- The actions that change a tab in place keep the invariant of the tab bar.
use vaultsql.Prelude.{
  ◌≤◌, true, false, List, [], ◌∷◌, Option, none, some, ◌≡◌, refl, arith, Text, or_else, Bool-cases,
  inl, inr,
}
use vaultsql.Database.Filters.{FilterInput, FilterMode}
use vaultsql.Tabs.Store.{
  TabDescriptor, TabsState, TabConfig, has_id, is_open, change, pin_tab, select_tab, update_tab,
  reset_tab_filters, update_tab_filter_mode,
}
use vaultsql.Tabs.Valid.{Distinct, previews, IsActiveOpen, IsValid}

-- A change that keeps the id, and makes no tab a preview.
module _ (tab_id : Text) (f : TabDescriptor → TabDescriptor)
    (same_id : (t : TabDescriptor) → (f t).id ≡ t.id)
    (no_preview : (t : TabDescriptor) → t.is_preview ≡ false → (f t).is_preview ≡ false) where
  is_open-change :
      (a : Text) (ts : List TabDescriptor) → is_open a (change tab_id f ts) ≡ is_open a ts
  unfolding change
  is_open-change a [] = refl
  is_open-change a (t ∷ ts) = elim (Bool-cases (has_id tab_id t)) [
    | inl e ↦ rw (e, same_id t, is_open-change a ts)
    | inr e ↦ rw (e, is_open-change a ts)
  ]

  Distinct-change : (ts : List TabDescriptor) → Distinct ts → Distinct (change tab_id f ts)
  unfolding change
  Distinct-change [] d = tt
  Distinct-change (t ∷ ts) (h, d) = elim (Bool-cases (has_id tab_id t)) [
    | inl e ↦ rw (e, same_id t, is_open-change t.id ts) (h, Distinct-change ts d)
    | inr e ↦ rw (e, is_open-change t.id ts) (h, Distinct-change ts d)
  ]

  previews-change : (ts : List TabDescriptor) → previews (change tab_id f ts) ≤ previews ts
  unfolding change
  previews-change [] = omega arith
  previews-change (t ∷ ts) = ground (arith, no_preview t, previews-change ts)

  IsActiveOpen-change :
      (a : Option Text) (ts : List TabDescriptor)
      → IsActiveOpen a ts
      → IsActiveOpen a (change tab_id f ts)
  IsActiveOpen-change none ts h = tt
  IsActiveOpen-change (some a) ts h = rw (is_open-change a ts) h

  IsValid-change :
      (a : Option Text) (s : TabsState)
      → IsActiveOpen a s.tabs
      → IsValid s
      → IsValid (record { tabs = change tab_id f s.tabs; active = a })
  IsValid-change a s h v = record {
    distinct = Distinct-change s.tabs v.distinct;
    one_preview = omega (arith, previews-change s.tabs, v.one_preview);
    active_open = IsActiveOpen-change a s.tabs h;
  }

pub pin_tab-IsValid : (tab_id : Text) (s : TabsState) → IsValid s → IsValid (pin_tab tab_id s)
unfolding pin_tab
pin_tab-IsValid tab_id s v =
    IsValid-change tab_id (λ tab. record tab { is_preview = false }) (λ t. refl) (λ t h. refl)
      s.active s v.active_open v

pub update_tab-IsValid :
    (tab_id : Text) (title : Option Text) (config : Option TabConfig) (s : TabsState)
    → IsValid s
    → IsValid (update_tab tab_id title config s)
unfolding update_tab
update_tab-IsValid tab_id title config s v =
    IsValid-change tab_id
      (λ tab. record tab { title = or_else title tab.title; config = or_else config tab.config })
      (λ t. refl) (λ t h. h) s.active s v.active_open v

pub reset_tab_filters-IsValid :
    (tab_id : Text) (filters : List FilterInput) (s : TabsState)
    → is_open tab_id s.tabs ≡ true
    → IsValid s
    → IsValid (reset_tab_filters tab_id filters s)
unfolding reset_tab_filters
reset_tab_filters-IsValid tab_id filters s h v =
    IsValid-change tab_id
      (λ tab. record tab { config = record tab.config { filters = some filters } }) (λ t. refl)
      (λ t h. h) (some tab_id) s h v

pub update_tab_filter_mode-IsValid :
    (tab_id : Text) (mode : FilterMode) (s : TabsState)
    → IsValid s
    → IsValid (update_tab_filter_mode tab_id mode s)
unfolding update_tab_filter_mode
update_tab_filter_mode-IsValid tab_id mode s v =
    IsValid-change tab_id
      (λ tab. record tab { config = record tab.config { filter_mode = some mode } }) (λ t. refl)
      (λ t h. h) s.active s v.active_open v

pub select_tab-IsValid :
    (a : Option Text) (s : TabsState) → IsActiveOpen a s.tabs → IsValid s → IsValid (select_tab a s)
unfolding select_tab
select_tab-IsValid a s h v = record {
  distinct = v.distinct;
  one_preview = v.one_preview;
  active_open = h;
}
