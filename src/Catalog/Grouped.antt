-- ===== src/Catalog/Grouped.antt =====
-- Which columns the map of all columns has for a table.
use vaultsql.Prelude.{
  List, [], ◌∷◌, ◌++◌, map, append_assoc, Option, some, inl, inr, ◌≡◌, refl, ap, ◌∙◌, Text, same,
  same_sound, keep, lookup, insert, lookup-insert, Bool-cases,
}
use vaultsql.Sql.Clauses.{items}
use vaultsql.Database.Columns.{ColumnInfo}
use vaultsql.Catalog.Rows.{CatalogRow}
use vaultsql.Catalog.Loads.{Introspection, ColumnsMap, table_key, group_columns}

-- What is there, with more behind it.
abbrev pub joined : Option (List ColumnInfo) → List ColumnInfo → Option (List ColumnInfo)
joined found [] = found
joined found (c ∷ cs) = some (items found ++ c ∷ cs)

joined-one :
    (found : Option (List ColumnInfo)) (c : ColumnInfo) (cs : List ColumnInfo)
    → joined (some (items found ++ c ∷ [])) cs ≡ joined found (c ∷ cs)
joined-one found c [] = refl
joined-one found c (d ∷ cs) = ap some (append_assoc (items found) (c ∷ []) (d ∷ cs))

module _ (dialect : Introspection) where
  -- The columns in the rows of a table, in order.
  abbrev pub columns_in : Text → List CatalogRow → List ColumnInfo
  columns_in key rows = map dialect.parse_bulk_column (keep (λ row. same (table_key row) key) rows)

  pub lookup-group_columns :
      (key : Text) (rows : List CatalogRow) (m : ColumnsMap)
      → lookup key (group_columns dialect rows m) ≡ joined (lookup key m) (columns_in key rows)
  unfolding group_columns
  lookup-group_columns key [] m = refl
  lookup-group_columns key (row ∷ rows) m =
      let k = table_key row in
      let c = dialect.parse_bulk_column row in
      lookup-group_columns key rows (insert k (items (lookup k m) ++ c ∷ []) m)
      ∙ elim (Bool-cases (same k key)) [
        | inl e ↦
            rw (lookup-insert key k (items (lookup k m) ++ c ∷ []) m, e)
              (ap (λ t. joined (some (items (lookup t m) ++ c ∷ [])) (columns_in key rows))
                  (same_sound k key e)
                ∙ joined-one (lookup key m) c (columns_in key rows))
        | inr e ↦ rw (lookup-insert key k (items (lookup k m) ++ c ∷ []) m, e) refl
      ]
