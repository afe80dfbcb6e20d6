-- ===== src/Postgres/Query.antt =====
-- frontend/src/workbench/lib/databases/postgres/queryBuilder.ts: the condition for one filter, and
-- the queries. The clauses that it shares with MySQL's builder are in Sql/Clauses.antt.
use vaultsql.Prelude.{[], ◌∷◌, ◌++◌, none, Text, codes, concat, replace_all}
use vaultsql.Database.Filters.{
  FilterInput, eq, neq, gt, gte, lt, lte, contains, icontains, starts_with, ends_with, is_null,
  is_not_null, in_list, all_of, FilterOperator,
}
use vaultsql.Database.Queries.{
  TableQueryParams, TableQueryResult, ExportQueryParams, ExportQueryResult, EstimatedCountParams,
  EstimatedCountResult,
}
use vaultsql.Sql.Clauses
use vaultsql.Sql.Clauses.{escape_like_value, format_in_values, table_name, lines}
use vaultsql.Postgres.Quote.{quote_identifier, escape_value, quoter}

-- The condition, by the operator, on a quoted column.
unfoldable pub condition_on : Text → FilterOperator → Text → Text
condition_on column eq value = concat (column ∷ codes " = " ∷ escape_value value ∷ [])
condition_on column neq value = concat (column ∷ codes " != " ∷ escape_value value ∷ [])
condition_on column gt value = concat (column ∷ codes " > " ∷ escape_value value ∷ [])
condition_on column gte value = concat (column ∷ codes " >= " ∷ escape_value value ∷ [])
condition_on column lt value = concat (column ∷ codes " < " ∷ escape_value value ∷ [])
condition_on column lte value = concat (column ∷ codes " <= " ∷ escape_value value ∷ [])
condition_on column contains value =
    concat (column ∷ codes " LIKE " ∷ escape_like_value quoter value ∷ [])
condition_on column icontains value =
    concat (column ∷ codes " ILIKE " ∷ escape_like_value quoter value ∷ [])
condition_on column starts_with value = concat (
    column
    ∷ codes " LIKE "
    ∷ escape_value (concat (replace_all b'\'' (codes "''") value ∷ codes "%" ∷ []))
    ∷ [])
condition_on column ends_with value = concat (
    column
    ∷ codes " LIKE "
    ∷ escape_value (concat (codes "%" ∷ replace_all b'\'' (codes "''") value ∷ []))
    ∷ [])
condition_on column is_null value = concat (column ∷ codes " IS NULL" ∷ [])
condition_on column is_not_null value = concat (column ∷ codes " IS NOT NULL" ∷ [])
condition_on column in_list value =
    concat (column ∷ codes " IN (" ∷ format_in_values quoter value ∷ codes ")" ∷ [])

unfoldable pub build_filter_condition : FilterInput → Text
unfolding condition_on
build_filter_condition filter =
    condition_on (quote_identifier filter.column) filter.operator filter.value

unfoldable pub build_table_query : TableQueryParams → TableQueryResult
build_table_query = Clauses.build_table_query quoter build_filter_condition

abbrev pub table_params : ExportQueryParams → TableQueryParams
table_params p = record {
  schema = p.schema;
  table = p.table;
  columns = p.columns;
  filters = p.filters;
  raw_where = none;
  filter_mode = none;
  sort = p.sort;
  limit = p.limit;
  offset = p.offset;
}

unfoldable pub build_export_query : ExportQueryParams → ExportQueryResult
unfolding build_table_query
build_export_query p = record { sql = (build_table_query (table_params p)).sql }

unfoldable pub build_estimated_count_query : EstimatedCountParams → EstimatedCountResult
build_estimated_count_query p = record {
  sql = concat (
      codes
        "SELECT reltuples::int8 as count\nFROM pg_class c\nJOIN pg_catalog.pg_namespace n ON n.oid = c.relnamespace\nWHERE n.nspname = "
      ∷ escape_value p.schema
      ∷ codes "\n  AND c.relname = "
      ∷ escape_value p.table
      ∷ []);
  fallback_sql = lines (
      codes "SELECT COUNT(*) as count"
      ∷ (codes "FROM " ++ table_name quoter p.schema p.table)
      ∷ Clauses.build_where_clause build_filter_condition p.filters none all_of
      ∷ []);
}
