-- ===== src/Grid/ColumnOrder.antt =====
-- frontend/src/workbench/components/grid/useColumnOrder.ts: the order of the columns. What is stored
-- is an argument, already parsed; `arrayMove` is a library's.
use vaultsql.Prelude.{
  ℕ, suc, Bool, true, false, not, ◌&&◌, List, [], ◌∷◌, ◌++◌, Option, none, some, Text, same, any,
  keep, if◌then◌else◌,
}

-- `new Set(columns).has(column)`
abbrev pub is_in : Text → List Text → Bool
is_in column columns = any (λ c. same c column) columns

unfoldable pub reconcile_columns : List Text → List Text → List Text
reconcile_columns stored current =
    let kept = keep (λ col. is_in col current) stored in
    let added = keep (λ col. not (is_in col stored)) current in kept ++ added

-- The first order: the stored one, unless there is none or it is empty.
unfoldable pub initial_order : Option (List Text) → List Text → List Text
unfolding reconcile_columns
initial_order none default_columns = default_columns
initial_order (some []) default_columns = default_columns
initial_order (some (c ∷ cs)) default_columns = reconcile_columns (c ∷ cs) default_columns

-- `columnOrder.every((col, i) => col === defaultColumns[i])`
unfoldable pub is_default_order : List Text → List Text → Bool
is_default_order [] default_columns = true
is_default_order (c ∷ cs) [] = false
is_default_order (c ∷ cs) (d ∷ ds) = same c d && is_default_order cs ds

-- `items.indexOf(column)`, with `none` for -1.
unfoldable pub index_of : Text → List Text → Option ℕ
index_of column [] = none
index_of column (c ∷ cs) =
    if same c column
    then some 0
    else elim (index_of column cs) [ none ↦ none | some i ↦ some (suc i) ]

module _ (array_move : List Text → ℕ → ℕ → List Text) where
  unfoldable pub reorder : Text → Text → List Text → List Text
  unfolding index_of
  reorder active_id over_id items = elim (index_of active_id items) [
    | none ↦ items
    | some old_index ↦ elim (index_of over_id items) [
      | none ↦ items
      | some new_index ↦ array_move items old_index new_index
    ]
  ]
