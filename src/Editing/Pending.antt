-- ===== src/Editing/Pending.antt =====
-- frontend/src/workbench/tabs/TableTab/components/grid/TableDataGrid.tsx: what the grid shows of the
-- changes that are queued. Maps and sets are lists in the order of insertion.
use vaultsql.Prelude.{
  Bool, true, false, not, ◌&&◌, ◌||◌, List, [], ◌∷◌, ◌++◌, Option, none, some, Text, codes, same,
  find, any, lookup, truthy, insert, or_else, if◌then◌else◌,
}
use vaultsql.Database.Mutations.{
  Value, null, undefined, string, number, boolean, other, MutationColumnValue,
}
use vaultsql.Database.Columns.{ColumnInfo}
use vaultsql.TableTab.State.{Row}
use vaultsql.Queue.Entries.{
  Payload, insert_row, update_row, delete_row, MutationEntry, create_target,
}

-- `String(value)`
abbrev pub to_string : Value → Text
to_string null = codes "null"
to_string undefined = codes "undefined"
to_string (string s) = s
to_string (number s) = s
to_string (boolean b) = if b then codes "true" else codes "false"
to_string (other s) = s

-- `value === null || value === undefined`
abbrev pub is_nullish : Value → Bool
is_nullish null = true
is_nullish undefined = true
is_nullish _ = false

abbrev pub is_null_value : Value → Bool
is_null_value null = true
is_null_value _ = false

abbrev pub is_undefined : Value → Bool
is_undefined undefined = true
is_undefined _ = false

-- `row[column]`
abbrev pub cell : Row → Text → Value
cell row column = or_else (lookup column row) undefined

abbrev pub is_for : Text → MutationColumnValue → Bool
is_for column mv = same mv.column column

abbrev display_of : Option MutationColumnValue → Value
display_of none = null
display_of (some mv) =
    if mv.is_null then null else if mv.use_default then string (codes "(default)") else mv.value

abbrev display_from : List MutationColumnValue → List Text → Row → Row
display_from values [] row = row
display_from values (col ∷ cols) row =
    display_from values cols (insert col (display_of (find (is_for col) values)) row)

unfoldable pub pending_row_to_display_row : List MutationColumnValue → List Text → Row
unfolding insert
pending_row_to_display_row values column_names = display_from values column_names []

abbrev aimed_at : Text → Text → MutationEntry → Bool
aimed_at schema table entry = same entry.target (create_target schema table)

unfoldable pub get_pending_insert_rows :
    List MutationEntry → Text → Text → List Text → List (Text × Row)
unfolding create_target
get_pending_insert_rows [] schema table column_names = []
get_pending_insert_rows (entry ∷ entries) schema table column_names =
    let rest = get_pending_insert_rows entries schema table column_names in
    elim entry.payload [
      | insert_row values ↦
          if aimed_at schema table entry
          then (entry.id, pending_row_to_display_row values column_names) ∷ rest
          else rest
      | _ ↦ rest
    ]

-- `mv.isNull ? null : mv.value`
abbrev pub new_value : MutationColumnValue → Value
new_value mv = if mv.is_null then null else mv.value

-- `for (const mv of values) existing[mv.column] = ...`
unfoldable pub set_all : List MutationColumnValue → Row → Row
unfolding insert
set_all [] row = row
set_all (mv ∷ values) row = set_all values (insert mv.column (new_value mv) row)

abbrev pub add_edits : List MutationColumnValue → Text → List (Text × Row) → List (Text × Row)
add_edits values pk_value edits =
    insert pk_value (set_all values (or_else (lookup pk_value edits) [])) edits

abbrev pub with_payload : Bool → Payload → List (Text × Row) → List (Text × Row)
with_payload true (update_row values primary_key) edits =
    add_edits values (to_string primary_key.value) edits
with_payload _ _ edits = edits

-- The map after one entry.
unfoldable pub with_entry : Text → MutationEntry → List (Text × Row) → List (Text × Row)
unfolding insert set_all
with_entry target entry edits = with_payload (same entry.target target) entry.payload edits

abbrev pub edits_from : Text → List MutationEntry → List (Text × Row) → List (Text × Row)
edits_from target [] edits = edits
edits_from target (entry ∷ entries) edits =
    edits_from target entries (with_entry target entry edits)

unfoldable pub get_pending_update_edits : List MutationEntry → Text → Text → List (Text × Row)
unfolding create_target with_entry
get_pending_update_edits entries schema table = edits_from (create_target schema table) entries []

-- `set.add(key)`
abbrev pub add_key : Text → List Text → List Text
add_key key keys = if any (same key) keys then keys else keys ++ key ∷ []

abbrev pub pks_with : Bool → Payload → List Text → List Text
pks_with true (delete_row primary_key) keys = add_key (to_string primary_key.value) keys
pks_with _ _ keys = keys

abbrev pub pks_from : Text → List MutationEntry → List Text → List Text
pks_from target [] keys = keys
pks_from target (entry ∷ entries) keys =
    pks_from target entries (pks_with (same entry.target target) entry.payload keys)

unfoldable pub get_pending_delete_pks : List MutationEntry → Text → Text → List Text
unfolding create_target
get_pending_delete_pks entries schema table = pks_from (create_target schema table) entries []

-- The value of a cell, given the edits of its row.
abbrev pub edited : Option Row → Row → Text → Value
edited none row column_name = cell row column_name
edited (some row_edits) row column_name =
    or_else (lookup column_name row_edits) (cell row column_name)

-- `primaryKeyColumn` is none where the table has no primary key.
unfoldable pub get_display_value : Option Text → List (Text × Row) → Row → Text → Value
get_display_value none edits row column_name = cell row column_name
get_display_value (some pk) edits row column_name =
    if is_nullish (cell row pk)
    then cell row column_name
    else edited (lookup (to_string (cell row pk)) edits) row column_name

-- The value that a cell is drawn with, if it is not being edited: `renderCell`. What an object inherits
-- is not among the columns.
unfoldable pub drawn_value : Option Text → List (Text × Row) → Row → Text → Value
drawn_value none edits row column = cell row column
drawn_value (some pk) edits row column =
    let pk_value = to_string (cell row pk) in
    let row_edits = if truthy pk_value then lookup pk_value edits else none in
    edited row_edits row column

-- `isPendingDelete`, by which a row and its cells are marked as deleted.
unfoldable pub is_pending_delete : Option Text → List Text → Row → Bool
is_pending_delete none pending_delete_pks row = false
is_pending_delete (some pk) pending_delete_pks row =
    let pk_value = to_string (cell row pk) in
    if truthy pk_value then any (same pk_value) pending_delete_pks else false

abbrev pub is_written : ColumnInfo → Bool
is_written column = not (column.is_auto_increment || column.is_generated)

unfoldable pub build_row_mutation_values :
    (Row → Text → Value) → List ColumnInfo → Row → List MutationColumnValue
build_row_mutation_values get [] row = []
build_row_mutation_values get (column ∷ columns) row =
    let rest = build_row_mutation_values get columns row in
    let value = get row column.name in
    if is_written column && not (is_undefined value)
    then record {
      column = column.name;
      value = value;
      is_null = is_null_value value;
      use_default = false;
    }
      ∷ rest
    else rest
