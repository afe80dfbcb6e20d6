-- ===== src/Catalog/Replies.antt =====
-- The answers to the queries of adapter.ts in
-- frontend/src/workbench/lib/databases/{postgres,mysql}, and what becomes of their rows. An
-- exception is its message.
use vaultsql.Prelude.{
  Bool, ◌⊎◌, inl, inr, List, [], ◌∷◌, Option, none, some, Text, codes, or_else, concat,
  if◌then◌else◌,
}
use vaultsql.Sql.Clauses.{items}
use vaultsql.Catalog.Rows.{CatalogRow}

-- The answer of `runQuery`.
pub record CatalogReply : Type 0 where
  pub success : Bool
  pub error : Option Text
  pub result : Option (List CatalogRow)

-- `throw new Error(response.error ?? message)`, or the rows.
abbrev pub rows_of : Text → CatalogReply → Text ⊎ List CatalogRow
rows_of message r = if r.success then inr (items r.result) else inl (or_else r.error message)

abbrev pub after_rows {ℓ} :
    {A : Type ℓ} → Text ⊎ List CatalogRow → (List CatalogRow → Text ⊎ A) → Text ⊎ A
after_rows (inl e) k = inl e
after_rows (inr rows) k = k rows

-- The runtime throws where missing rows are mapped; the message is its own.
abbrev pub mapped_rows : Text → CatalogReply → Text ⊎ List CatalogRow
mapped_rows message r =
    if r.success
    then (elim r.result [ none ↦ inl (codes "TypeError") | some rows ↦ inr rows ])
    else inl (or_else r.error message)

-- A schema and a name with a dot between.
abbrev pub dotted : Text → Text → Text
dotted schema name = concat (schema ∷ codes "." ∷ name ∷ [])
