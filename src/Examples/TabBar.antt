-- ===== src/Examples/TabBar.antt =====
-- The tab bar after concrete events.
use vaultsql.Prelude.{[], ◌∷◌, none, some, ◌≡◌, refl, true, false, Text, codes}
use vaultsql.Tabs.Store.{
  TabDescriptor, TabsState, worksheet, worksheet_config, initial, add_preview_tab, close_tab,
}
use vaultsql.Tabs.Open.{open_table_tab, open_worksheet_tab, new_tab}
use vaultsql.Tabs.Valid.{IsValid}
use vaultsql.Tabs.Reachable.{
  start, next, table, worksheet as sheet, close, Reach-IsValid, pinned, add_preview_tab-pinned,
}
use vaultsql.Tabs.Close.{close_tab-active}

abbrev tab : Text → TabDescriptor
tab tab_id =
    new_tab tab_id tab_id worksheet
      (record { kind = worksheet_config none none; filters = none; filter_mode = none })

abbrev one_table : TabsState
one_table = open_table_tab (codes "public") (codes "users") none none true initial

abbrev two_tabs : TabsState
two_tabs = open_worksheet_tab (codes "1") (codes "report") false one_table

abbrev closed : TabsState
closed = close_tab (codes "worksheet:1") two_tabs

Reach-IsValid_example : IsValid closed
Reach-IsValid_example = Reach-IsValid (
    next
      (next (next start (table (codes "public") (codes "users") none none true))
        (sheet (codes "1") (codes "report") false))
      (close (codes "worksheet:1")))

add_preview_tab-pinned_example :
    (pinned (add_preview_tab (tab (codes "a")) two_tabs).tabs ≡ pinned two_tabs.tabs)
    × ((add_preview_tab (tab (codes "a")) two_tabs).active ≡ some (codes "a"))
add_preview_tab-pinned_example = add_preview_tab-pinned (tab (codes "a")) two_tabs

-- The last tab is closed, and the one on its left becomes active.
close_tab-active_example :
    close_tab
      (codes "b")
      (record { tabs = tab (codes "a") ∷ tab (codes "b") ∷ []; active = some (codes "b") })
    ≡ record { tabs = tab (codes "a") ∷ []; active = some (codes "a") }
close_tab-active_example = close_tab-active (tab (codes "a") ∷ []) [] (tab (codes "b")) refl refl
