-- ===== src/TableTab/Filtered.antt =====
-- What the filters fetch (useFilterToolbar.ts of
-- frontend/src/workbench/tabs/TableTab/components/toolbars).
use vaultsql.Prelude.{
  Bool, true, false, ◌&&◌, ◌||◌, List, [], ◌∷◌, some, ◌≡◌, refl, ap, ◌∙◌, sym, inl, inr, Text, any,
  Bool-cases, if◌then◌else◌,
}
use vaultsql.Database.Filters.{FilterMode, to_filter_inputs}
use vaultsql.Tabs.Store.{TabDescriptor, TabsState, has_id, change, pin_tab, update_tab_filter_mode}
use vaultsql.TableTab.Actions.{apply}
use vaultsql.TableTab.Fetching.{command, inputs_of}
use vaultsql.TableTab.FilterBar.{
  DrawnTab, FilterBar, FilterEvent, update_filter, remove_filter, add_filter, clear_filters,
  run_raw_sql, remove_raw_sql, change_mode, handle_filter_event,
}

-- A preview tab with this id is there.
abbrev pub previewed : Text → List TabDescriptor → Bool
previewed tab_id tabs = any (λ tab. has_id tab_id tab && tab.is_preview) tabs

and_false : (b : Bool) → (b && false) ≡ false
and_false true = refl
and_false false = refl

-- A tab is a preview with this id.
abbrev hits : Text → TabDescriptor → Bool
hits tab_id tab = has_id tab_id tab && tab.is_preview

hits-pinned :
    (tab_id : Text) (x : TabDescriptor)
    → hits tab_id (if has_id tab_id x then record x { is_preview = false } else x) ≡ false
hits-pinned tab_id x = elim (Bool-cases (has_id tab_id x)) [
  | inl e ↦ rw e (and_false (has_id tab_id x))
  | inr e ↦ rw e (ap (λ b. b && x.is_preview) e)
]

previewed-pin_tab :
    (tab_id : Text) (s : TabsState) → previewed tab_id (pin_tab tab_id s).tabs ≡ false
unfolding pin_tab change
previewed-pin_tab tab_id s = go s.tabs
  where
    go :
        (ts : List TabDescriptor)
        → previewed tab_id (change tab_id (λ tab. record tab { is_preview = false }) ts) ≡ false
    go [] = refl
    go (x ∷ ts) =
        ap
          (λ b. b || previewed tab_id (change tab_id (λ tab. record tab { is_preview = false }) ts))
          (hits-pinned tab_id x)
        ∙ go ts

hits-moded :
    (tab_id : Text) (mode : FilterMode) (x : TabDescriptor)
    → hits tab_id (
        if has_id tab_id x
        then record x { config = record x.config { filter_mode = some mode } }
        else x)
      ≡ hits tab_id x
hits-moded tab_id mode x = go (has_id tab_id x)
  where
    go :
        (b : Bool)
        → hits tab_id
            (if b then record x { config = record x.config { filter_mode = some mode } } else x)
          ≡ hits tab_id x
    go true = refl
    go false = refl

previewed-update_tab_filter_mode :
    (tab_id : Text) (mode : FilterMode) (s : TabsState)
    → previewed tab_id (update_tab_filter_mode tab_id mode s).tabs ≡ previewed tab_id s.tabs
unfolding update_tab_filter_mode change
previewed-update_tab_filter_mode tab_id mode s = go s.tabs
  where
    go :
        (ts : List TabDescriptor)
        → previewed tab_id (
            change tab_id
              (λ tab. record tab { config = record tab.config { filter_mode = some mode } })
              ts)
          ≡ previewed tab_id ts
    go [] = refl
    go (x ∷ ts) =
        ap
          (λ b.
            b
            || previewed tab_id (
                change tab_id
                  (λ tab. record tab { config = record tab.config { filter_mode = some mode } })
                  ts))
          (hits-moded tab_id mode x)
        ∙ ap (λ b. hits tab_id x || b) (go ts)

pinned :
    (t : DrawnTab) (s : TabsState)
    → t.is_preview ≡ previewed t.tab_id s.tabs
    → previewed t.tab_id (if t.is_preview then pin_tab t.tab_id s else s).tabs ≡ false
pinned t s drawn = elim (Bool-cases t.is_preview) [
  | inl e ↦ rw e (previewed-pin_tab t.tab_id s)
  | inr e ↦ rw e (sym drawn ∙ e)
]

-- A tab drawn as a preview exactly if it is one: what the user chooses in the filters is fetched
-- with exactly the filters and the raw SQL that the store then has; the page, its size and the
-- manual limit stay as they are; and the tab is not a preview any more.
pub handle_filter_event_lem :
    (t : DrawnTab) (e : FilterEvent) (s : FilterBar)
    → t.is_preview ≡ previewed t.tab_id s.tabs.tabs
    → let (s', fetched) = handle_filter_event t e s in
      (fetched ≡ (inputs_of s'.store, s'.store.filtering.raw_sql_where))
      × (s'.store.pagination ≡ s.store.pagination)
      × (previewed t.tab_id s'.tabs.tabs ≡ false)
unfolding handle_filter_event command apply to_filter_inputs
handle_filter_event_lem t (update_filter updated) s h = (refl, refl, pinned t s.tabs h)
handle_filter_event_lem t (remove_filter id) s h = (refl, refl, pinned t s.tabs h)
handle_filter_event_lem t (add_filter filter) s h = (refl, refl, pinned t s.tabs h)
handle_filter_event_lem t clear_filters s h = (refl, refl, pinned t s.tabs h)
handle_filter_event_lem t (run_raw_sql sql) s h = (refl, refl, pinned t s.tabs h)
handle_filter_event_lem t remove_raw_sql s h = (refl, refl, pinned t s.tabs h)
handle_filter_event_lem t (change_mode mode) s h =
    let kept = previewed-update_tab_filter_mode t.tab_id mode s.tabs in
    (refl, refl, pinned t (update_tab_filter_mode t.tab_id mode s.tabs) (h ∙ sym kept))
