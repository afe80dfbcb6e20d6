-- ===== src/Mysql/Introspection.antt =====
-- frontend/src/workbench/lib/databases/mysql/introspection.ts, but for what Catalog/Rows.antt has.
use vaultsql.Prelude.{
  Bool, false, not, ◌||◌, List, [], ◌∷◌, map, Option, none, some, Text, codes, same, has, truthy,
  split, includes, or_else, first_of, if◌then◌else◌,
}
use vaultsql.Database.Filters.{
  ColumnCategory, text, integer, float, boolean, timestamp, date, time, json, other,
}
use vaultsql.Database.Columns.{ColumnInfo, IndexInfo}
use vaultsql.Catalog.Rows.{
  Cell, CatalogRow, cell, is_truthy, lower_case, upper_case, one_of, get_string, either_string,
}
use vaultsql.Catalog.Loads.{Introspection}

unfoldable pub infer_category : Text → Text → ColumnCategory
infer_category data_type column_type =
    let lower = lower_case data_type in
    let is_tiny = same (lower_case column_type) (codes "tinyint(1)") in
    if one_of
      (codes "varchar"
        ∷ codes "char"
        ∷ codes "text"
        ∷ codes "tinytext"
        ∷ codes "mediumtext"
        ∷ codes "longtext"
        ∷ codes "enum"
        ∷ codes "set"
        ∷ [])
      lower
    then text
    else if one_of
        (codes "tinyint"
          ∷ codes "smallint"
          ∷ codes "mediumint"
          ∷ codes "int"
          ∷ codes "bigint"
          ∷ codes "integer"
          ∷ [])
        lower
    then (if is_tiny then boolean else integer)
    else if one_of
        (codes "float" ∷ codes "double" ∷ codes "decimal" ∷ codes "numeric" ∷ codes "real" ∷ [])
        lower
    then float
    else if same lower (codes "boolean") || is_tiny
    then boolean
    else if one_of (codes "timestamp" ∷ codes "datetime" ∷ []) lower
    then timestamp
    else if same lower (codes "date")
    then date
    else if same lower (codes "time")
    then time
    else if same lower (codes "json")
    then json
    else other

-- A test of a default that is there.
abbrev pub default_is : (Text → Bool) → Option Text → Bool
default_is p none = false
default_is p (some t) = p t

abbrev pub has_server_default : Text → Bool
has_server_default t =
    includes (codes "CURRENT_TIMESTAMP") (upper_case t)
    || has b'(' t
    || same t (codes "1")
    || same t (codes "0")

-- `value === 1 || value === '1'`
abbrev pub is_one : Cell → Bool
is_one (Cell.number t) = same t (codes "1")
is_one (Cell.string t) = same t (codes "1")
is_one _ = false

-- What both parsers of a column share, but for the name, the comment and another sign of a key.
abbrev pub column_of : Text → Option Text → Bool → CatalogRow → ColumnInfo
column_of name comment is_key row =
    let column_type =
      or_else (first_of (get_string row (codes "column_type")) (get_string row (codes "data_type")))
        (codes "unknown") in
    let extra = lower_case (or_else (get_string row (codes "extra")) []) in
    let default_value = get_string row (codes "column_default") in
    let is_auto_increment = includes (codes "auto_increment") extra in
    record {
      name = name;
      data_type = column_type;
      nullable = default_is (λ t. same t (codes "YES")) (get_string row (codes "is_nullable"));
      default_value = default_value;
      is_primary_key = is_one (cell (codes "is_primary_key") row) || is_key;
      comment = comment;
      category = infer_category (or_else (get_string row (codes "data_type")) []) column_type;
      has_server_default = default_is has_server_default default_value;
      is_generated = is_auto_increment || includes (codes "generated") extra;
      is_auto_increment = is_auto_increment;
    }

unfoldable pub parse_columns : List CatalogRow → List ColumnInfo
unfolding get_string infer_category
parse_columns rows =
    map
      (λ row.
        column_of (or_else (get_string row (codes "column_name")) [])
          (get_string row (codes "column_comment"))
          (default_is (λ t. same t (codes "PRI")) (get_string row (codes "column_key"))) row)
      rows

unfoldable pub parse_bulk_column : CatalogRow → ColumnInfo
unfolding get_string infer_category
parse_bulk_column row =
    column_of (either_string row (codes "column_name") (codes "columnName")) none false row

unfoldable pub parse_indexes : List CatalogRow → List IndexInfo
unfolding get_string
parse_indexes rows =
    map
      (λ row.
        let name = or_else (get_string row (codes "index_name")) [] in
        let columns = or_else (get_string row (codes "columns")) [] in
        record {
          name = name;
          columns = if truthy columns then split b',' columns else [];
          is_unique = not (is_truthy (cell (codes "non_unique") row));
          is_primary = same name (codes "PRIMARY");
          type = elim (get_string row (codes "index_type")) [
            | none ↦ codes "btree"
            | some t ↦ lower_case t
          ];
        })
      rows

abbrev pub introspection : Introspection
introspection = record {
  parse_columns = parse_columns;
  parse_bulk_column = parse_bulk_column;
  parse_indexes = parse_indexes;
}
