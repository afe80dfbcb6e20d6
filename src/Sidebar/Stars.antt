-- ===== src/Sidebar/Stars.antt =====
-- frontend/src/workbench/features/starred/useStarredStore.ts. Ids and times are arguments; a star of
-- a table has no key.
use vaultsql.Prelude.{
  ℕ, Bool, true, false, not, ◌&&◌, List, ◌∷◌, Option, none, some, Text, same, any, find, keep,
}

pub data StarType : Type 0 where
  table row : StarType

pub record StarredItem : Type 0 where
  pub id : Text
  pub type : StarType
  pub schema : Text
  pub table : Text
  pub primary_key_column : Option Text
  pub primary_key_value : Option Text
  pub display_label : Option Text
  pub created_at : ℕ

abbrev pub is_table : StarType → Bool
is_table table = true
is_table row = false

-- `a === b` for a text that may be undefined
abbrev pub same_there : Option Text → Text → Bool
same_there none t = false
same_there (some s) t = same s t

unfoldable pub add_table_star : Text → ℕ → Text → Text → List StarredItem → List StarredItem
add_table_star id now schema table_name stars =
    record {
      id = id;
      type = StarType.table;
      schema = schema;
      table = table_name;
      primary_key_column = none;
      primary_key_value = none;
      display_label = none;
      created_at = now;
    }
    ∷ stars

unfoldable pub add_row_star :
    Text → ℕ → Text → Text → Text → Text → Option Text → List StarredItem → List StarredItem
add_row_star id now schema table_name pk_column pk_value label stars =
    record {
      id = id;
      type = StarType.row;
      schema = schema;
      table = table_name;
      primary_key_column = some pk_column;
      primary_key_value = some pk_value;
      display_label = label;
      created_at = now;
    }
    ∷ stars

unfoldable pub remove_star : Text → List StarredItem → List StarredItem
remove_star id stars = keep (λ s. not (same s.id id)) stars

abbrev pub is_table_star : Text → Text → StarredItem → Bool
is_table_star schema table_name s =
    is_table s.type && same s.schema schema && same s.table table_name

abbrev pub is_row_star : Text → Text → Text → Text → StarredItem → Bool
is_row_star schema table_name pk_column pk_value s =
    not (is_table s.type)
    && same s.schema schema
    && same s.table table_name
    && same_there s.primary_key_column pk_column
    && same_there s.primary_key_value pk_value

unfoldable pub has_table_star : Text → Text → List StarredItem → Bool
has_table_star schema table_name stars = any (is_table_star schema table_name) stars

unfoldable pub has_row_star : Text → Text → Text → Text → List StarredItem → Bool
has_row_star schema table_name pk_column pk_value stars =
    any (is_row_star schema table_name pk_column pk_value) stars

abbrev pub id_of : Option StarredItem → Option Text
id_of none = none
id_of (some s) = some s.id

unfoldable pub get_table_star_id : Text → Text → List StarredItem → Option Text
get_table_star_id schema table_name stars = id_of (find (is_table_star schema table_name) stars)

unfoldable pub get_row_star_id : Text → Text → Text → Text → List StarredItem → Option Text
get_row_star_id schema table_name pk_column pk_value stars =
    id_of (find (is_row_star schema table_name pk_column pk_value) stars)
