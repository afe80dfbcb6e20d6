-- ===== src/Examples/GridRuns.antt =====
-- A stored order of columns against a result that has lost one and has a new one.
use vaultsql.Prelude.{List, [], ◌∷◌, ◌≡◌, Text, codes}
use vaultsql.Grid.ColumnOrder.{is_in, reconcile_columns}
use vaultsql.Grid.Reconciled.{Distinct, reconcile_columns_lem}

abbrev stored : List Text
stored = codes "name" ∷ codes "old" ∷ codes "id" ∷ []

abbrev current : List Text
current = codes "id" ∷ codes "name" ∷ codes "new" ∷ []

reconcile_columns_lem_example :
    ((c : Text) → is_in c (reconcile_columns stored current) ≡ is_in c current)
    × (Distinct stored → Distinct current → Distinct (reconcile_columns stored current))
    × (reconcile_columns (reconcile_columns stored current) current
        ≡ reconcile_columns stored current)
reconcile_columns_lem_example = reconcile_columns_lem stored current

reconciled : reconcile_columns stored current ≡ codes "name" ∷ codes "id" ∷ codes "new" ∷ []
unfolding reconcile_columns
reconciled = λ i. codes "name" ∷ codes "id" ∷ codes "new" ∷ []
