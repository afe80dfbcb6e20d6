-- ===== src/Tabs/Store.antt =====
-- frontend/src/workbench/tabs/useTabsStore.ts. Each action returns the new state.
use vaultsql.Prelude.{
  ℕ, suc, min, Bool, true, false, not, List, [], ◌∷◌, ◌++◌, Option, none, some, Text, same, any,
  keep, length, get_elem?, or_else, if◌then◌else◌,
}
use vaultsql.Database.Filters.{FilterInput, FilterMode}

pub data WorkbenchTabType : Type 0 where
  browse_data table_edit worksheet new_table routine : WorkbenchTabType

pub data RoutineType : Type 0 where
  function procedure : RoutineType

pub data ConfigKind : Type 0 where
  table_config : Text → Text → Option Bool → ConfigKind
  worksheet_config : Option Text → Option Text → ConfigKind
  new_table_config : Text → ConfigKind
  routine_config : Text → Text → RoutineType → ConfigKind
  other_config : List (Text × Text) → ConfigKind

-- The actions write `filters` and `filterMode` into a config of any kind.
pub record TabConfig : Type 0 where
  pub kind : ConfigKind
  pub filters : Option (List FilterInput)
  pub filter_mode : Option FilterMode

-- `isPreview` is only tested for truth, so an absent one is `false`.
pub record TabDescriptor : Type 0 where
  pub id : Text
  pub title : Text
  pub tab_type : WorkbenchTabType
  pub is_preview : Bool
  pub config : TabConfig

pub record TabsState : Type 0 where
  pub tabs : List TabDescriptor
  pub active : Option Text

abbrev pub initial : TabsState
initial = record { tabs = []; active = none }

abbrev pub has_id : Text → TabDescriptor → Bool
has_id tab_id tab = same tab.id tab_id

-- `tabs.findIndex(({ id }) => id === tabId) >= 0`
abbrev pub is_open : Text → List TabDescriptor → Bool
is_open tab_id tabs = any (has_id tab_id) tabs

-- `findIndex`, with `none` for -1.
unfoldable pub find_index : Text → List TabDescriptor → Option ℕ
find_index tab_id [] = none
find_index tab_id (t ∷ ts) =
    if has_id tab_id t
    then some 0
    else elim (find_index tab_id ts) [ none ↦ none | some i ↦ some (suc i) ]

unfoldable pub add_tab : TabDescriptor → TabsState → TabsState
add_tab tab s =
    if is_open tab.id s.tabs
    then record s { active = some tab.id }
    else record { tabs = s.tabs ++ tab ∷ []; active = some tab.id }

-- The first preview tab, if there is one, is replaced; otherwise the tab is put at the end.
unfoldable pub place_preview : TabDescriptor → List TabDescriptor → List TabDescriptor
place_preview tab [] = tab ∷ []
place_preview tab (t ∷ ts) = if t.is_preview then tab ∷ ts else t ∷ place_preview tab ts

abbrev pub as_preview : TabDescriptor → TabDescriptor
as_preview tab = record tab { is_preview = true }

unfoldable pub add_preview_tab : TabDescriptor → TabsState → TabsState
unfolding place_preview
add_preview_tab tab s =
    if is_open tab.id s.tabs
    then record s { active = some tab.id }
    else record { tabs = place_preview (as_preview tab) s.tabs; active = some tab.id }

-- `tabs.map((tab) => (tab.id === tabId ? f(tab) : tab))`
unfoldable pub change :
    Text → (TabDescriptor → TabDescriptor) → List TabDescriptor → List TabDescriptor
change tab_id f [] = []
change tab_id f (t ∷ ts) = (if has_id tab_id t then f t else t) ∷ change tab_id f ts

unfoldable pub pin_tab : Text → TabsState → TabsState
pin_tab tab_id s = record s {
  tabs = change tab_id (λ tab. record tab { is_preview = false }) s.tabs;
}

unfoldable pub select_tab : Option Text → TabsState → TabsState
select_tab tab_id s = record s { active = tab_id }

abbrev pub id_of : Option TabDescriptor → Option Text
id_of none = none
id_of (some tab) = some tab.id

-- The tab that takes the place of a closed one, and the last one if there is none at its place.
unfoldable pub next_active : ℕ → List TabDescriptor → Option Text
next_active index [] = none
next_active index (t ∷ ts) = id_of (get_elem? (t ∷ ts) (min index (length ts)))

abbrev pub is_active : Option Text → Text → Bool
is_active none tab_id = false
is_active (some a) tab_id = same a tab_id

unfoldable pub close_tab : Text → TabsState → TabsState
close_tab tab_id s = elim (find_index tab_id s.tabs) [
  | none ↦ s
  | some index ↦
      let next_tabs = keep (λ tab. not (has_id tab_id tab)) s.tabs in
      record {
        tabs = next_tabs;
        active = if is_active s.active tab_id then next_active index next_tabs else s.active;
      }
]

-- The title and the config are replaced where they are given.
unfoldable pub update_tab : Text → Option Text → Option TabConfig → TabsState → TabsState
update_tab tab_id title config s = record s {
  tabs =
      change tab_id
        (λ tab. record tab { title = or_else title tab.title; config = or_else config tab.config })
        s.tabs;
}

unfoldable pub reset_tab_filters : Text → List FilterInput → TabsState → TabsState
reset_tab_filters tab_id filters s = record {
  tabs =
      change tab_id (λ tab. record tab { config = record tab.config { filters = some filters } })
        s.tabs;
  active = some tab_id;
}

unfoldable pub update_tab_filter_mode : Text → FilterMode → TabsState → TabsState
update_tab_filter_mode tab_id mode s = record s {
  tabs =
      change tab_id (λ tab. record tab { config = record tab.config { filter_mode = some mode } })
        s.tabs;
}
