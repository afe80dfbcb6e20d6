-- ===== src/Examples/CatalogRuns.antt =====
-- Two tables of a schema, loaded from PostgreSQL, and the query for one row.
use vaultsql.Prelude.{true, List, [], ◌∷◌, is_empty, none, some, ◌≡◌, Text, codes, if◌then◌else◌}
use vaultsql.Postgres.Introspection.{introspection}
use vaultsql.Catalog.Rows.{Cell, CatalogRow}
use vaultsql.Catalog.Loads.{fetch_row_query}
use vaultsql.Catalog.Replies.{CatalogReply, dotted}
use vaultsql.Sidebar.Columns.{
  success, error, empty_store, settled, begin_load, invalidate_schema, get_table_columns,
  load_all_columns,
}
use vaultsql.Sidebar.Loaded.{answered_columns, get_table_columns_lem}
use vaultsql.TableTab.Structure.{StructureAction, begins, fails, sets, empty_structure}

abbrev catalog_row : Text → Text → CatalogRow
catalog_row table column =
    (codes "table_schema", Cell.string (codes "public"))
    ∷ (codes "table_name", Cell.string table)
    ∷ (codes "column_name", Cell.string column)
    ∷ (codes "udt_name", Cell.string (codes "int4"))
    ∷ []

abbrev catalog_reply : CatalogReply
catalog_reply = record {
  success = true;
  error = none;
  result = some (
      catalog_row (codes "users") (codes "id")
      ∷ catalog_row (codes "pets") (codes "owner")
      ∷ catalog_row (codes "users") (codes "age")
      ∷ []);
}

get_table_columns_lem_example :
    let t =
      load_all_columns
        (settled (vaultsql.Catalog.Loads.load_all_columns introspection catalog_reply))
        (λ s. s)
        empty_store in
    let found =
      answered_columns introspection catalog_reply (dotted (codes "public") (codes "users")) in
    (get_table_columns (codes "public") (codes "users") t ≡ (
      if is_empty found
      then get_table_columns (codes "public") (codes "users") (begin_load empty_store)
      else some found))
    × (t.status ≡ (if catalog_reply.success then success else error))
    × (get_table_columns (codes "public") (codes "users") (invalidate_schema (codes "public") t)
        ≡ none)
get_table_columns_lem_example =
    get_table_columns_lem introspection catalog_reply (λ s. s) empty_store (codes "public")
      (codes "users")

abbrev structure_actions : List StructureAction
structure_actions =
    record { schema = codes "public"; table = codes "users"; call = begins }
    ∷ record { schema = codes "public"; table = codes "pets"; call = fails (codes "gone") }
    ∷ record { schema = codes "public"; table = codes "users"; call = sets empty_structure }
    ∷ []
