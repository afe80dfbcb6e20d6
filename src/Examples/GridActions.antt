-- ===== src/Examples/GridActions.antt =====
-- Clicks on three rows, and a drag of a column's edge.
use vaultsql.Prelude.{
  true, false, not, ◌||◌, List, [], ◌∷◌, none, some, ◌≡◌, refl, Text, codes, ◌==◌, if◌then◌else◌,
}
use vaultsql.Grid.ColumnOrder.{is_in}
use vaultsql.Grid.Selection.{GridSelection, select_range, toggle_row, select_all}
use vaultsql.Grid.Selected.{within, select_range_lem}
use vaultsql.Grid.Sizing.{GridColumnDef}

abbrev row_keys : List Text
row_keys = codes "a" ∷ codes "b" ∷ codes "c" ∷ []

abbrev clicked : GridSelection
clicked = record { selected = codes "c" ∷ []; last = some (codes "c") }

select_range_lem_example :
    (is_in (codes "b") (select_range row_keys (codes "c") (codes "a") clicked).selected
      ≡ within 2 0 1)
    × (is_in (codes "b") (toggle_row row_keys (codes "a") true clicked).selected
        ≡ (is_in (codes "b") clicked.selected || within 2 0 1))
    × (is_in (codes "b") (toggle_row row_keys (codes "a") false clicked).selected ≡ (
        if 0 == 1
        then not (is_in (codes "b") clicked.selected)
        else is_in (codes "b") clicked.selected))
    × (is_in (codes "b") (select_all row_keys clicked).selected ≡ true)
select_range_lem_example =
    select_range_lem row_keys 2 0 1 (codes "c") (codes "a") (codes "b") clicked
      (refl, (refl, (refl, tt))) refl refl refl refl refl

abbrev name_column : GridColumnDef
name_column = record { id = codes "name"; width = some 100; min_width = none; max_width = some 300 }
