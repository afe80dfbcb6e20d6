-- ===== src/Sidebar/Loaded.antt =====
-- The columns that the store has for a table when a schema has been loaded.
use vaultsql.Prelude.{
  true, List, [], ◌∷◌, ◌++◌, append_assoc, is_empty, Option, none, some, inl, inr, ◌≡◌, refl, ap,
  sym, ◌∙◌, arith, Text, codes, ==_refl, starts_with, lookup, insert, merge, erase_if, Unique,
  Unique-insert, lookup-merge, lookup-erase_if, first_of, if◌then◌else◌, Bool-cases,
}
use vaultsql.Sql.Clauses.{items}
use vaultsql.Database.Columns.{ColumnInfo}
use vaultsql.Catalog.Rows.{CatalogRow}
use vaultsql.Catalog.Loads.{Introspection, ColumnsMap, table_key, group_columns}
use vaultsql.Catalog.Replies.{CatalogReply, dotted}
use vaultsql.Catalog.Grouped.{joined, columns_in, lookup-group_columns}
use vaultsql.Sidebar.Columns.{
  ColumnsStore, success, error, settled, begin_load, invalidate_schema, get_table_columns,
  load_all_columns,
}

starts_with-append : (p t : Text) → starts_with p (p ++ t) ≡ true
starts_with-append [] t = refl
starts_with-append (c ∷ p) t = ground (arith, ==_refl c, starts_with-append p t)

starts_with-dotted :
    (schema table : Text) → starts_with (schema ++ codes ".") (dotted schema table) ≡ true
starts_with-dotted schema table =
    ap (starts_with (schema ++ codes ".")) (sym (append_assoc schema (codes ".") (table ++ [])))
    ∙ starts_with-append (schema ++ codes ".") (table ++ [])

Unique-group_columns :
    (dialect : Introspection) (rows : List CatalogRow) (m : ColumnsMap)
    → Unique m
    → Unique (group_columns dialect rows m)
unfolding group_columns
Unique-group_columns dialect [] m u = u
Unique-group_columns dialect (row ∷ rows) m u =
    let k = table_key row in
    let cs = items (lookup k m) ++ dialect.parse_bulk_column row ∷ [] in
    Unique-group_columns dialect rows (insert k cs m) (Unique-insert k cs m u)

invalidated :
    (schema table : Text) (m : ColumnsMap)
    → lookup (dotted schema table) (erase_if (starts_with (schema ++ codes ".")) m) ≡ none
invalidated schema table m =
    lookup-erase_if (starts_with (schema ++ codes ".")) (dotted schema table) m
    ∙ ap (λ b. if b then none else lookup (dotted schema table) m) (starts_with-dotted schema table)

joined-none :
    (cs : List ColumnInfo) (before : Option (List ColumnInfo))
    → first_of (joined none cs) before ≡ (if is_empty cs then before else some cs)
joined-none [] before = refl
joined-none (c ∷ cs) before = refl

-- The columns that an answer has for a table.
abbrev pub answered_columns : Introspection → CatalogReply → Text → List ColumnInfo
answered_columns dialect r key = if r.success then columns_in dialect key (items r.result) else []

abbrev loads :
    Introspection → CatalogReply → (ColumnsStore → ColumnsStore) → ColumnsStore → ColumnsStore
loads dialect r meanwhile s =
    load_all_columns (settled (vaultsql.Catalog.Loads.load_all_columns dialect r)) meanwhile s

-- Let the columns of a schema be loaded, whatever the answer and however the store changes until it
-- comes. For a table that the answer has columns of, the store then has exactly those, in order;
-- for another it has what it had; and its status says whether the answer was a success. When the
-- schema is invalidated the store has no columns of its tables.
pub get_table_columns_lem :
    (dialect : Introspection) (r : CatalogReply) (meanwhile : ColumnsStore → ColumnsStore)
    (s : ColumnsStore) (schema table : Text)
    → let t = loads dialect r meanwhile s in
      let found = answered_columns dialect r (dotted schema table) in
      (get_table_columns schema table t ≡ (
        if is_empty found
        then get_table_columns schema table (meanwhile (begin_load s))
        else some found))
      × (t.status ≡ (if r.success then success else error))
      × (get_table_columns schema table (invalidate_schema schema t) ≡ none)
unfolding get_table_columns load_all_columns invalidate_schema
    vaultsql.Catalog.Loads.load_all_columns
get_table_columns_lem dialect r meanwhile s schema table =
    let key = dotted schema table in
    let m = (meanwhile (begin_load s)).columns in
    let rows = items r.result in
    elim (Bool-cases r.success) [
      | inl e ↦ rw e (
        lookup-merge key m (group_columns dialect rows [])
              (Unique-group_columns dialect rows [] (record { lower = tt }))
            ∙ (ap (λ o. first_of o (lookup key m)) (lookup-group_columns dialect key rows [])
                ∙ joined-none (columns_in dialect key rows) (lookup key m)),
        refl,
        invalidated schema table (merge m (group_columns dialect rows [])),
      )
      | inr e ↦ rw e (refl, refl, invalidated schema table m)
    ]
