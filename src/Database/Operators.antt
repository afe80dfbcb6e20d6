-- ===== src/Database/Operators.antt =====
-- What the operator tables of frontend/src/workbench/types/database.ts offer for a column.
use vaultsql.Prelude.{List, [], ◌∷◌, map, ◌≡◌, refl}
use vaultsql.Database.Filters.{
  ColumnCategory, text, integer, float, boolean, timestamp, date, time, uuid, json, array, other,
  operators_by_category, get_operators_for_category, get_default_operator, FilterOperator, eq,
}

-- The first of the operators listed.
abbrev pub leading_operator : List FilterOperator → FilterOperator
leading_operator [] = eq
leading_operator (op ∷ _) = op

-- For every category of columns, the operators offered are exactly those listed for it, in that
-- order, so each has a label, and the default is the first of them.
pub offered_operators :
    (c : ColumnCategory)
    → (map (λ op. op.operator) (get_operators_for_category c) ≡ operators_by_category c)
      × (get_default_operator c ≡ leading_operator (operators_by_category c))
unfolding get_operators_for_category get_default_operator
offered_operators text = (refl, refl)
offered_operators integer = (refl, refl)
offered_operators float = (refl, refl)
offered_operators boolean = (refl, refl)
offered_operators timestamp = (refl, refl)
offered_operators date = (refl, refl)
offered_operators time = (refl, refl)
offered_operators uuid = (refl, refl)
offered_operators json = (refl, refl)
offered_operators array = (refl, refl)
offered_operators other = (refl, refl)
