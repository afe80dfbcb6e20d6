-- ===== src/Catalog/Loads.antt =====
-- A row, the structure of a table, and all columns of a schema, as adapter.ts in
-- frontend/src/workbench/lib/databases/{postgres,mysql} makes them from the answers to its queries.
use vaultsql.Prelude.{
  true, false, ◌⊎◌, inr, List, [], ◌∷◌, ◌++◌, Option, none, some, Text, codes, concat, lookup,
  insert, if◌then◌else◌,
}
use vaultsql.Sql.Clauses.{items, table_name}
use vaultsql.Sql.Quoter.{Quoter}
use vaultsql.Database.Columns.{ColumnInfo, IndexInfo, TableStructure}
use vaultsql.Database.Mutations.{Value, undefined, string, number, boolean, other}
use vaultsql.Catalog.Rows.{CatalogRow, get_string, either_string, parse_foreign_keys}
use vaultsql.Catalog.Replies.{CatalogReply, rows_of, after_rows, mapped_rows, dotted}

module _ (q : Quoter) where
  -- `${value}`
  abbrev pub value_text : Value → Text
  value_text Value.null = codes "null"
  value_text undefined = codes "undefined"
  value_text (string t) = q.escape_value t
  value_text (number t) = t
  value_text (boolean true) = codes "true"
  value_text (boolean false) = codes "false"
  value_text (other t) = t

  unfoldable pub fetch_row_query : Text → Text → Text → Value → Text
  fetch_row_query schema table column value = concat (
      codes "SELECT * FROM "
      ∷ table_name q schema table
      ∷ codes " WHERE "
      ∷ q.quote_identifier column
      ∷ codes " = "
      ∷ value_text value
      ∷ codes " LIMIT 1"
      ∷ [])

abbrev pub first_row : List CatalogRow → Option CatalogRow
first_row [] = none
first_row (row ∷ rows) = some row

unfoldable pub fetch_row : CatalogReply → Text ⊎ Option CatalogRow
fetch_row r = after_rows (rows_of (codes "Failed to fetch row") r) (λ rows. inr (first_row rows))

-- The parsers of a dialect's introspection.ts.
pub record Introspection : Type 0 where
  pub parse_columns : List CatalogRow → List ColumnInfo
  pub parse_bulk_column : CatalogRow → ColumnInfo
  pub parse_indexes : List CatalogRow → List IndexInfo

abbrev pub table_key : CatalogRow → Text
table_key row =
    dotted (either_string row (codes "table_schema") (codes "tableSchema"))
      (either_string row (codes "table_name") (codes "tableName"))

abbrev pub ColumnsMap : Type 0
ColumnsMap = List (Text × List ColumnInfo)

module _ (dialect : Introspection) where
  -- The rows of the columns and of the indexes are mapped without a default for missing ones.
  unfoldable pub describe_table : CatalogReply → CatalogReply → CatalogReply → Text ⊎ TableStructure
  unfolding parse_foreign_keys
  describe_table columns indexes foreign_keys =
      after_rows (mapped_rows (codes "Failed to load columns") columns) (λ rows.
        after_rows (if indexes.success then mapped_rows [] indexes else inr []) (λ index_rows.
          inr (record {
            columns = dialect.parse_columns rows;
            indexes = dialect.parse_indexes index_rows;
            foreign_keys =
                if foreign_keys.success then parse_foreign_keys (items foreign_keys.result) else [];
          })))

  -- The column joins those of its table that came before.
  unfoldable pub group_columns : List CatalogRow → ColumnsMap → ColumnsMap
  unfolding get_string
  group_columns [] columns_map = columns_map
  group_columns (row ∷ rows) columns_map = group_columns rows (
      insert (table_key row)
        (items (lookup (table_key row) columns_map) ++ dialect.parse_bulk_column row ∷ [])
        columns_map)

  unfoldable pub load_all_columns : CatalogReply → Text ⊎ ColumnsMap
  unfolding group_columns
  load_all_columns r =
      after_rows (rows_of (codes "Failed to load schema columns") r)
        (λ rows. inr (group_columns rows []))
