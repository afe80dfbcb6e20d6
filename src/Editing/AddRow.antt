-- ===== src/Editing/AddRow.antt =====
-- frontend/src/workbench/tabs/TableTab/components/dialogs/AddRowDialog.tsx: the dialog for a new
-- row. The runtime's parsers of numbers, dates and JSON are parameters.
use vaultsql.Prelude.{
  ℕ, Bool, true, false, not, ◌&&◌, ◌||◌, ◌*◌, List, [], ◌∷◌, Option, none, some, Text, codes,
  is_empty, keep, leb, length, lookup, insert, value, or_else, if◌then◌else◌,
}
use vaultsql.Database.Mutations.{Value, null, string, number, boolean, other}
use vaultsql.Database.Columns.{ColumnInfo}
use vaultsql.Database.Filters.{ColumnCategory}
use vaultsql.TableTab.State.{Row}
use vaultsql.Catalog.Rows.{lower_case, one_of}

pub record ColumnValue : Type 0 where
  pub value : Text
  pub is_null : Bool
  pub use_default : Bool

-- The texts of the numbers that parseInt and parseFloat read, none for NaN; JSON.parse, none where
-- it throws; and toISOString for so many milliseconds, none where it throws.
pub record Runtime : Type 0 where
  pub parse_int : Text → Option Text
  pub parse_float : Text → Option Text
  pub parse_json : Text → Option Value
  pub to_iso_string : ℕ → Option Text

-- `/^\d+$/.test(value)`
abbrev all_digits : Text → Bool
all_digits [] = true
all_digits (c ∷ cs) = (leb 48 c && leb c 57) && all_digits cs

abbrev is_digits : Text → Bool
is_digits text = not (is_empty text) && all_digits text

abbrev number_or : Text → Option Text → Value
number_or text none = string text
number_or text (some n) = number n

abbrev date_of : Option Text → Option Value
date_of none = none
date_of (some t) = some (string t)

-- `{ __sql: ... }`, which `String` prints as an object.
abbrev sql_function : Value
sql_function = other (codes "[object Object]")

module _ (r : Runtime) where
  abbrev parse_in : ColumnCategory → Text → Option Value
  parse_in ColumnCategory.integer text = some (number_or text (r.parse_int text))
  parse_in ColumnCategory.float text = some (number_or text (r.parse_float text))
  parse_in ColumnCategory.boolean text =
      let lower = lower_case text in
      some (
        if one_of (codes "true" ∷ codes "t" ∷ codes "1" ∷ []) lower
        then boolean true
        else if one_of (codes "false" ∷ codes "f" ∷ codes "0" ∷ []) lower
        then boolean false
        else string text)
  parse_in ColumnCategory.json text = some (or_else (r.parse_json text) (string text))
  parse_in ColumnCategory.timestamp text =
      if is_digits text
      then date_of
          (r.to_iso_string (if leb (length text) 10 then value 0 text * 1000 else value 0 text))
      else some (string text)
  parse_in _ text = some (string text)

  -- None where it throws.
  unfoldable pub parse_value : Text → ColumnInfo → Option Value
  parse_value text column =
      if one_of (codes "NOW()" ∷ codes "now()" ∷ codes "CURRENT_DATE" ∷ codes "current_date" ∷ [])
        text
      then some sql_function
      else parse_in column.category text

abbrev pub visible_columns : List ColumnInfo → List ColumnInfo
visible_columns columns = keep (λ col. not col.is_auto_increment) columns

unfoldable pub required_columns : List ColumnInfo → List ColumnInfo
required_columns columns =
    keep (λ col. not col.nullable && not col.has_server_default) (visible_columns columns)

unfoldable pub optional_columns : List ColumnInfo → List ColumnInfo
optional_columns columns =
    keep (λ col. col.nullable || col.has_server_default) (visible_columns columns)

-- The values of the form by column.
abbrev pub Values : Type 0
Values = List (Text × ColumnValue)

abbrev pub initial_value : ColumnInfo → ColumnValue
initial_value col = record {
  value = [];
  is_null = col.nullable && not col.has_server_default;
  use_default = col.has_server_default;
}

abbrev pub filled : List ColumnInfo → Values → Values
filled [] values = values
filled (col ∷ cols) values = filled cols (insert col.name (initial_value col) values)

-- What opening the dialog does.
unfoldable pub opened : List ColumnInfo → Values
unfolding insert
opened columns = filled (visible_columns columns) []

-- What the user does to the row of a column.
pub data Change : Type 0 where
  value_change : Text → Change
  null_toggle : Change
  default_toggle : Change

unfoldable pub changed : Change → ColumnValue → ColumnValue
changed (value_change new_value) v = record {
  value = new_value;
  is_null = false;
  use_default = false;
}
changed null_toggle v = record v { is_null = not v.is_null; use_default = false }
changed default_toggle v = record v { use_default = not v.use_default; is_null = false }

-- The value that a column's row is drawn with.
abbrev pub shown_value : Text → Values → ColumnValue
shown_value name values =
    or_else (lookup name values) (record { value = []; is_null = false; use_default = false })

unfoldable pub handle_change : Text → Change → Values → Values
unfolding insert changed
handle_change name change values = insert name (changed change (shown_value name values)) values

unfoldable pub change_all : List (Text × Change) → Values → Values
unfolding handle_change
change_all [] values = values
change_all ((name, change) ∷ changes) values = change_all changes (handle_change name change values)

-- What one column adds to the result: nothing, or a value; an error where parseValue throws.
pub data Entered : Type 0 where
  skipped : Entered
  thrown : Entered
  entered : Value → Entered

abbrev pub parsed : Option Value → Entered
parsed none = thrown
parsed (some v) = entered v

module _ (r : Runtime) where
  unfoldable pub entered_value : ColumnInfo → ColumnValue → Entered
  unfolding parse_value
  entered_value col v =
      let parsed_value = parsed (parse_value r v.value col) in
      if v.use_default
      then skipped
      else if v.is_null
      then entered null
      else if is_empty v.value
      then (if col.nullable then entered null else skipped)
      else parsed_value

  abbrev pub entered_for : ColumnInfo → Option ColumnValue → Entered
  entered_for col none = skipped
  entered_for col (some v) = entered_value col v

  unfoldable pub submit_from : List ColumnInfo → Values → Row → Option Row
  unfolding insert entered_value
  submit_from [] values result = some result
  submit_from (col ∷ cols) values result = elim (entered_for col (lookup col.name values)) [
    | skipped ↦ submit_from cols values result
    | thrown ↦ none
    | entered v ↦ submit_from cols values (insert col.name v result)
  ]

  -- The object given to onSubmit, none where a value cannot be read and nothing is submitted.
  unfoldable pub handle_submit : List ColumnInfo → Values → Option Row
  unfolding submit_from
  handle_submit columns values = submit_from (visible_columns columns) values []
