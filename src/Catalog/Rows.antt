-- ===== src/Catalog/Rows.antt =====
-- The functions of introspection.ts that have the same text in
-- frontend/src/workbench/lib/databases/{postgres,mysql}, and what the source uses of JavaScript
-- values. The names that catalogs give to types and kinds are ASCII, so case is that of ASCII.
use vaultsql.Prelude.{
  ◌+◌, ◌-◌, Bool, true, false, not, ◌&&◌, ◌||◌, List, [], ◌∷◌, map, Option, none, some, Text, codes,
  join, same, truthy, or_else, first_of, leb, lookup, if◌then◌else◌,
}
use vaultsql.Database.Columns.{ForeignKeyInfo}

-- A value of a row. `null` is undefined too; a number is the text that `String` makes of it, and
-- `other` is an object that is no array.
pub data Cell : Type 0 where
  null : Cell
  string : Text → Cell
  number : Text → Cell
  boolean : Bool → Cell
  array : List Text → Cell
  other : Text → Cell

abbrev pub CatalogRow : Type 0
CatalogRow = List (Text × Cell)

-- `row[key]`
abbrev pub cell : Text → CatalogRow → Cell
cell key row = or_else (lookup key row) null

-- `Boolean(value)`
abbrev pub is_truthy : Cell → Bool
is_truthy null = false
is_truthy (string t) = truthy t
is_truthy (number t) = not (same t (codes "0") || same t (codes "NaN"))
is_truthy (boolean b) = b
is_truthy (array ts) = true
is_truthy (other t) = true

-- `${value}`, if the value is there.
abbrev pub cell_text : Cell → Option Text
cell_text null = none
cell_text (string t) = some t
cell_text (number t) = some t
cell_text (boolean true) = some (codes "true")
cell_text (boolean false) = some (codes "false")
cell_text (array ts) = some (join (codes ",") ts)
cell_text (other t) = some t

abbrev pub lower_case : Text → Text
lower_case t = map (λ c. if leb 65 c && leb c 90 then c + 32 else c) t

abbrev pub upper_case : Text → Text
upper_case t = map (λ c. if leb 97 c && leb c 122 then c - 32 else c) t

abbrev pub one_of : List Text → Text → Bool
one_of [] t = false
one_of (s ∷ ss) t = same s t || one_of ss t

abbrev pub string_of : Cell → Option Text
string_of (string t) = some t
string_of _ = none

unfoldable pub get_string : CatalogRow → Text → Option Text
get_string source key = string_of (cell key source)

-- `getString(row, key) ?? getString(row, other) ?? ''`
abbrev pub either_string : CatalogRow → Text → Text → Text
either_string row key twin = or_else (first_of (get_string row key) (get_string row twin)) []

pub data WorkbenchTableType : Type 0 where
  table view : WorkbenchTableType

unfoldable pub normalize_table_type : Cell → WorkbenchTableType
normalize_table_type (string t) = if same (upper_case t) (codes "VIEW") then view else table
normalize_table_type _ = table

unfoldable pub parse_foreign_keys : List CatalogRow → List ForeignKeyInfo
unfolding get_string
parse_foreign_keys rows =
    map
      (λ row. record {
        constraint_name = or_else (get_string row (codes "constraint_name")) [];
        column = or_else (get_string row (codes "fk_column")) [];
        ref_schema = or_else (get_string row (codes "ref_schema")) [];
        ref_table = or_else (get_string row (codes "ref_table")) [];
        ref_column = or_else (get_string row (codes "ref_column")) [];
        on_update = or_else (get_string row (codes "on_update")) (codes "NO ACTION");
        on_delete = or_else (get_string row (codes "on_delete")) (codes "NO ACTION");
      })
      rows
