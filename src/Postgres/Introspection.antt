-- ===== src/Postgres/Introspection.antt =====
-- frontend/src/workbench/lib/databases/postgres/introspection.ts, but for what Catalog/Rows.antt
-- has.
use vaultsql.Prelude.{
  Bool, false, ◌||◌, List, [], ◌∷◌, map, Option, none, some, Text, codes, same, has, starts_with,
  includes, or_else, first_of, concat, if◌then◌else◌,
}
use vaultsql.Database.Filters.{
  ColumnCategory, text, integer, float, boolean, timestamp, date, time, uuid, json, array, other,
}
use vaultsql.Database.Columns.{ColumnInfo, IndexInfo}
use vaultsql.Catalog.Rows.{
  Cell, CatalogRow, cell, cell_text, is_truthy, lower_case, one_of, get_string, either_string,
}
use vaultsql.Catalog.Loads.{Introspection}

unfoldable pub infer_category : Text → ColumnCategory
infer_category udt_name =
    let lower = lower_case udt_name in
    if one_of
      (codes "text"
        ∷ codes "varchar"
        ∷ codes "char"
        ∷ codes "bpchar"
        ∷ codes "name"
        ∷ codes "citext"
        ∷ [])
      lower
    then text
    else if one_of
        (codes "int2"
          ∷ codes "int4"
          ∷ codes "int8"
          ∷ codes "smallint"
          ∷ codes "integer"
          ∷ codes "bigint"
          ∷ codes "serial"
          ∷ codes "bigserial"
          ∷ codes "smallserial"
          ∷ [])
        lower
    then integer
    else if one_of
        (codes "float4"
          ∷ codes "float8"
          ∷ codes "real"
          ∷ codes "double precision"
          ∷ codes "numeric"
          ∷ codes "decimal"
          ∷ codes "money"
          ∷ [])
        lower
    then float
    else if same lower (codes "bool") || same lower (codes "boolean")
    then boolean
    else if one_of
        (codes "timestamp"
          ∷ codes "timestamptz"
          ∷ codes "timestamp with time zone"
          ∷ codes "timestamp without time zone"
          ∷ [])
        lower
    then timestamp
    else if same lower (codes "date")
    then date
    else if one_of
        (codes "time"
          ∷ codes "timetz"
          ∷ codes "time with time zone"
          ∷ codes "time without time zone"
          ∷ [])
        lower
    then time
    else if same lower (codes "uuid")
    then uuid
    else if one_of (codes "json" ∷ codes "jsonb" ∷ []) lower
    then json
    else if starts_with (codes "_") lower
    then array
    else other

abbrev pub sized : Text → Option Text → Option Text → Option Text → Text
sized name (some length) precision scale = concat (name ∷ codes "(" ∷ length ∷ codes ")" ∷ [])
sized name none (some precision) (some scale) =
    concat (name ∷ codes "(" ∷ precision ∷ codes "," ∷ scale ∷ codes ")" ∷ [])
sized name none _ _ = name

unfoldable pub format_data_type : CatalogRow → Text
unfolding get_string
format_data_type row =
    sized
      (or_else (first_of (get_string row (codes "udt_name")) (get_string row (codes "data_type")))
        (codes "unknown"))
      (cell_text (cell (codes "character_maximum_length") row))
      (cell_text (cell (codes "numeric_precision") row))
      (cell_text (cell (codes "numeric_scale") row))

-- A test of a default that is there.
abbrev pub default_is : (Text → Bool) → Option Text → Bool
default_is p none = false
default_is p (some t) = p t

abbrev pub has_server_default : Text → Bool
has_server_default t =
    has b'(' t
    || starts_with (codes "CURRENT_") t
    || same t (codes "true")
    || same t (codes "false")

-- What both parsers of a column share, but for the name and the comment.
abbrev pub column_of : Text → Option Text → CatalogRow → ColumnInfo
column_of name comment row =
    let default_value = get_string row (codes "column_default") in
    let is_auto_increment = default_is (includes (codes "nextval(")) default_value in
    record {
      name = name;
      data_type = format_data_type row;
      nullable = default_is (λ t. same t (codes "YES")) (get_string row (codes "is_nullable"));
      default_value = default_value;
      is_primary_key = is_truthy (cell (codes "is_primary_key") row);
      comment = comment;
      category = infer_category (or_else (get_string row (codes "udt_name")) []);
      has_server_default = default_is has_server_default default_value;
      is_generated = is_auto_increment || default_is (includes (codes "generated")) default_value;
      is_auto_increment = is_auto_increment;
    }

unfoldable pub parse_columns : List CatalogRow → List ColumnInfo
unfolding get_string infer_category format_data_type
parse_columns rows =
    map
      (λ row.
        column_of (or_else (get_string row (codes "column_name")) [])
          (get_string row (codes "column_comment")) row)
      rows

unfoldable pub parse_bulk_column : CatalogRow → ColumnInfo
unfolding get_string infer_category format_data_type
parse_bulk_column row =
    column_of (either_string row (codes "column_name") (codes "columnName")) none row

abbrev pub array_of : Cell → List Text
array_of (Cell.array ts) = ts
array_of _ = []

unfoldable pub parse_indexes : List CatalogRow → List IndexInfo
unfolding get_string
parse_indexes rows =
    map
      (λ row. record {
        name = or_else (get_string row (codes "index_name")) [];
        columns = array_of (cell (codes "columns") row);
        is_unique = is_truthy (cell (codes "is_unique") row);
        is_primary = is_truthy (cell (codes "is_primary") row);
        type = or_else (get_string row (codes "index_type")) (codes "btree");
      })
      rows

abbrev pub introspection : Introspection
introspection = record {
  parse_columns = parse_columns;
  parse_bulk_column = parse_bulk_column;
  parse_indexes = parse_indexes;
}
