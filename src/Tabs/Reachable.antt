-- ===== src/Tabs/Reachable.antt =====
-- What the workbench can do to the tab bar, and what holds after any of it.
use vaultsql.Prelude.{
  ℕ, Bool, true, false, not, List, [], ◌∷◌, ◌++◌, Option, none, some, ◌≡◌, refl, arith, Text, keep,
  Bool-cases, inl, inr, codes, concat, or_else,
}
use vaultsql.Database.Filters.{FilterInput, FilterMode}
use vaultsql.Tabs.Store.{
  TabDescriptor, TabsState, TabConfig, RoutineType, initial, is_open, place_preview, as_preview,
  add_preview_tab, pin_tab, select_tab, close_tab, update_tab, update_tab_filter_mode,
}
use vaultsql.Tabs.Open.{
  add, open_draft_sql_tab, open_new_table_tab, open_routine_tab, open_table_tab, open_worksheet_tab,
}
use vaultsql.Tabs.Valid.{IsValid, add_tab-IsValid, add_preview_tab-IsValid}
use vaultsql.Tabs.Change.{
  pin_tab-IsValid, update_tab-IsValid, reset_tab_filters-IsValid, update_tab_filter_mode-IsValid,
  select_tab-IsValid,
}
use vaultsql.Tabs.Close.{close_tab-IsValid}

-- One event: a function that opens a tab, or an action of the bar. A tab is selected by a click on
-- it, so it is open.
pub data Step (s : TabsState) : TabsState → Type 0 where
  draft : (now : ℕ) (content : Option Text) → Step s (open_draft_sql_tab now content s)
  design : (schema : Text) → Step s (open_new_table_tab schema s)
  routine :
      (schema object_name : Text) (object_type : RoutineType) (preview : Bool)
      → Step s (open_routine_tab schema object_name object_type preview s)
  table :
      (schema name : Text) (is_view : Option Bool) (filters : Option (List FilterInput))
      (preview : Bool)
      → Step s (open_table_tab schema name is_view filters preview s)
  worksheet :
      (worksheet_id worksheet_name : Text) (preview : Bool)
      → Step s (open_worksheet_tab worksheet_id worksheet_name preview s)
  pin : (tab_id : Text) → Step s (pin_tab tab_id s)
  select : (tab_id : Text) → is_open tab_id s.tabs ≡ true → Step s (select_tab (some tab_id) s)
  deselect : Step s (select_tab none s)
  close : (tab_id : Text) → Step s (close_tab tab_id s)
  update :
      (tab_id : Text) (title : Option Text) (config : Option TabConfig)
      → Step s (update_tab tab_id title config s)
  filter_mode : (tab_id : Text) (mode : FilterMode) → Step s (update_tab_filter_mode tab_id mode s)

pub data Reach : TabsState → Type 0 where
  start : Reach initial
  next : {s t : TabsState} → Reach s → Step s t → Reach t

add-IsValid :
    (preview : Bool) (tab : TabDescriptor) (s : TabsState)
    → tab.is_preview ≡ false
    → IsValid s
    → IsValid (add preview tab s)
add-IsValid true tab s h v = add_preview_tab-IsValid tab s v
add-IsValid false tab s h v = add_tab-IsValid tab s h v

open_new_table_tab-IsValid :
    (schema : Text) (s : TabsState) → IsValid s → IsValid (open_new_table_tab schema s)
unfolding open_new_table_tab
open_new_table_tab-IsValid schema s v =
    let tab_id = codes "new-table:" ++ schema in
    elim (Bool-cases (is_open tab_id s.tabs)) [
      | inl e ↦ rw (e, open_new_table_tab) (select_tab-IsValid (some tab_id) s e v)
      | inr e ↦ rw (e, open_new_table_tab) (add_tab-IsValid _ s refl v)
    ]

open_table_tab-IsValid :
    (schema name : Text) (is_view : Option Bool) (filters : Option (List FilterInput))
    (preview : Bool) (s : TabsState)
    → IsValid s
    → IsValid (open_table_tab schema name is_view filters preview s)
unfolding open_table_tab
open_table_tab-IsValid schema name is_view filters preview s v =
    let tab_id = concat (codes "table:" ∷ schema ∷ codes "." ∷ name ∷ []) in
    elim (Bool-cases (is_open tab_id s.tabs)) [
      | inl e ↦ rw (e, open_table_tab) (reset_tab_filters-IsValid tab_id (or_else filters []) s e v)
      | inr e ↦ rw (e, open_table_tab) (add-IsValid preview _ s refl v)
    ]

Step-IsValid : {s t : TabsState} → Step s t → IsValid s → IsValid t
Step-IsValid {s} (draft now content) v = unfold open_draft_sql_tab in add_tab-IsValid _ s refl v
Step-IsValid {s} (design schema) v = open_new_table_tab-IsValid schema s v
Step-IsValid {s} (routine schema object_name object_type preview) v =
    unfold open_routine_tab in add-IsValid preview _ s refl v
Step-IsValid {s} (table schema name is_view filters preview) v =
    open_table_tab-IsValid schema name is_view filters preview s v
Step-IsValid {s} (worksheet worksheet_id worksheet_name preview) v =
    unfold open_worksheet_tab in add-IsValid preview _ s refl v
Step-IsValid {s} (pin tab_id) v = pin_tab-IsValid tab_id s v
Step-IsValid {s} (select tab_id h) v = select_tab-IsValid (some tab_id) s h v
Step-IsValid {s} deselect v = select_tab-IsValid none s tt v
Step-IsValid {s} (close tab_id) v = close_tab-IsValid tab_id s v
Step-IsValid {s} (update tab_id title config) v = update_tab-IsValid tab_id title config s v
Step-IsValid {s} (filter_mode tab_id mode) v = update_tab_filter_mode-IsValid tab_id mode s v

-- After any sequence of events no two tabs have one id, at most one tab is a preview, and the active
-- tab, if there is one, is open.
pub Reach-IsValid : {s : TabsState} → Reach s → IsValid s
Reach-IsValid start = record { distinct = tt; one_preview = omega arith; active_open = tt }
Reach-IsValid (next r st) = Step-IsValid st (Reach-IsValid r)

-- The tabs that are not previews.
abbrev pub pinned : List TabDescriptor → List TabDescriptor
pinned tabs = keep (λ t. not t.is_preview) tabs

pinned-place_preview :
    (tab : TabDescriptor) (ts : List TabDescriptor)
    → tab.is_preview ≡ true
    → pinned (place_preview tab ts) ≡ pinned ts
unfolding place_preview
pinned-place_preview tab [] h = ground arith
pinned-place_preview tab (t ∷ ts) h = ground (arith, pinned-place_preview tab ts h)

-- Opening a preview never removes, moves or changes a tab that is not a preview, and makes the
-- previewed tab the active one.
pub add_preview_tab-pinned :
    (tab : TabDescriptor) (s : TabsState)
    → (pinned (add_preview_tab tab s).tabs ≡ pinned s.tabs)
      × ((add_preview_tab tab s).active ≡ some tab.id)
unfolding add_preview_tab
add_preview_tab-pinned tab s = elim (Bool-cases (is_open tab.id s.tabs)) [
  | inl e ↦ rw e (refl, refl)
  | inr e ↦ rw e (pinned-place_preview (as_preview tab) s.tabs refl, refl)
]
