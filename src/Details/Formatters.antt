-- ===== src/Details/Formatters.antt =====
-- frontend/src/workbench/tabs/TableTab/components/panes/details/formatters.ts, and what JsonValue
-- and TextValue of DetailValueRenderer.tsx beside it draw. The limits are those of
-- frontend/src/workbench/constants.ts.
use vaultsql.Prelude.{
  ℕ, zero, suc, Bool, true, false, ◌*◌, ◌/◌, ◌||◌, List, [], ◌∷◌, ◌++◌, Option, none, some, Text,
  codes, concat, join, split, is_empty, take, length, decimal, or_else, ltb, leb, ◌==◌, has,
  if◌then◌else◌,
}
use vaultsql.Details.Json.{
  JsonValue, null, undefined, string, number, boolean, array, object, Items, no_items, item, Fields,
  no_fields, field, quote, true_or_false, json_stringify,
}

abbrev pub detail_value_truncate_length : ℕ
detail_value_truncate_length = 300

abbrev pub detail_value_max_lines : ℕ
detail_value_max_lines = 20

abbrev pub detail_value_max_length : ℕ
detail_value_max_length = 2000

abbrev pub detail_value_json_max_depth : ℕ
detail_value_json_max_depth = 5

abbrev pub count_items : Items → ℕ
count_items no_items = 0
count_items (item v vs) = suc (count_items vs)

-- `'  '.repeat(depth)`
abbrev pub indent_of : ℕ → Text
indent_of zero = []
indent_of (suc n) = codes "  " ++ indent_of n

abbrev pub block : Text → Text → ℕ → List Text → Text
block open_ close depth [] = open_ ++ close
block open_ close depth (p ∷ ps) =
    concat
      (open_ ∷ codes "\n" ∷ join (codes ",\n") (p ∷ ps) ∷ codes "\n" ∷ indent_of depth ∷ close ∷ [])

-- The inner function of formatJsonPretty.
unfoldable mutual
  unfolding quote decimal

  pub stringify : ℕ → ℕ → JsonValue → Text
  stringify max_depth depth null = codes "null"
  stringify max_depth depth undefined = codes "undefined"
  stringify max_depth depth (string s) = quote s
  stringify max_depth depth (number n) = n
  stringify max_depth depth (boolean b) = true_or_false b
  stringify max_depth depth (array items) =
      let whole =
        block (codes "[") (codes "]") depth (stringify_items max_depth (suc depth) items) in
      if leb max_depth depth
      then concat (codes "[..." ∷ decimal (count_items items) ∷ codes " items]" ∷ [])
      else whole
  stringify max_depth depth (object fields) =
      let whole =
        block (codes "{") (codes "}") depth (stringify_fields max_depth (suc depth) fields) in
      if leb max_depth depth then codes "{...}" else whole

  pub stringify_items : ℕ → ℕ → Items → List Text
  stringify_items max_depth depth no_items = []
  stringify_items max_depth depth (item v vs) =
      (indent_of depth ++ stringify max_depth depth v) ∷ stringify_items max_depth depth vs

  pub stringify_fields : ℕ → ℕ → Fields → List Text
  stringify_fields max_depth depth no_fields = []
  stringify_fields max_depth depth (field key v fs) =
      concat (indent_of depth ∷ quote key ∷ codes ": " ∷ stringify max_depth depth v ∷ [])
      ∷ stringify_fields max_depth depth fs

unfoldable pub format_json_pretty : JsonValue → ℕ → Text
unfolding stringify
format_json_pretty value max_depth = stringify max_depth 0 value

pub record FormattedValue : Type 0 where
  pub display : Text
  pub copy_text : Text
  pub is_null : Bool

abbrev plain : Text → FormattedValue
plain text = record { display = text; copy_text = text; is_null = false }

abbrev of_null : FormattedValue
of_null = record { display = codes "NULL"; copy_text = codes "NULL"; is_null = true }

-- `JSON.stringify` gives a text for every array and object.
unfoldable pub format_value : JsonValue → FormattedValue
unfolding json_stringify
format_value null = of_null
format_value undefined = of_null
format_value (string s) = plain s
format_value (number n) = plain n
format_value (boolean b) = plain (true_or_false b)
format_value (array items) = plain (or_else (json_stringify (array items)) [])
format_value (object fields) = plain (or_else (json_stringify (object fields)) [])

pub record Truncation : Type 0 where
  pub text : Text
  pub is_truncated : Bool

-- `text.lastIndexOf(' ', max)` of the text behind `i` units: the last place up to `max` units on.
abbrev pub last_space : ℕ → ℕ → Text → Option ℕ
last_space i max [] = none
last_space i max (c ∷ cs) = elim max [
  | zero ↦ if c == 32 then some i else none
  | suc m ↦
      let rest = last_space (suc i) m cs in
      elim rest [ none ↦ (if c == 32 then some i else none) | some j ↦ some j ]
]

abbrev cut : ℕ → Text → Truncation
cut n text = record { text = take n text ++ codes "..."; is_truncated = true }

unfoldable pub truncate_text : Text → ℕ → Truncation
truncate_text text max_length =
    if leb (length text) max_length
    then record { text = text; is_truncated = false }
    else elim (last_space 0 max_length text) [
      | none ↦ cut max_length text
      | some i ↦ if ltb (max_length * 4 / 5) i then cut i text else cut max_length text
    ]

unfoldable pub count_lines : Text → ℕ
count_lines text = if is_empty text then 0 else length (split b'\n' text)

unfoldable pub truncate_lines : Text → ℕ → Truncation
truncate_lines text max_lines =
    let lines = split b'\n' text in
    if leb (length lines) max_lines then record { text = text; is_truncated = false } else record {
      text = join (codes "\n") (take max_lines lines) ++ codes "\n...";
      is_truncated = true;
    }

-- Cut at the hard limit of characters.
abbrev pub capped : Text → Text
capped text =
    if ltb detail_value_max_length (length text)
    then take detail_value_max_length text ++ codes "..."
    else text

-- What JsonValue draws of a value that is not null: its text, if it has one line; else a text that
-- is shown when it is expanded, and whether it says that this was truncated.
pub record JsonView : Type 0 where
  pub json_string : Text
  pub capped_json : Text
  pub line_count : ℕ
  pub was_truncated : Bool
  pub is_complex : Bool

abbrev pub was_cut : Truncation → Text → Bool
was_cut limited json_string =
    limited.is_truncated || ltb (length (capped limited.text)) (length json_string)

unfoldable pub json_view : Text → JsonView
unfolding truncate_lines count_lines
json_view json_string =
    let limited = truncate_lines json_string detail_value_max_lines in
    record {
      json_string = json_string;
      capped_json = capped limited.text;
      line_count = count_lines json_string;
      was_truncated = was_cut limited json_string;
      is_complex = has b'\n' json_string;
    }

-- The texts of TextValue, which is not blank: collapsed and expanded.
pub record TextView : Type 0 where
  pub truncated : Text
  pub is_truncated : Bool
  pub expanded_text : Text
  pub expanded_truncated : Bool

unfoldable pub text_view : Text → ℕ → ℕ → TextView
unfolding truncate_text truncate_lines
text_view text max_length max_lines =
    let by_length = truncate_text (capped text) max_length in
    let by_lines = truncate_lines by_length.text max_lines in
    let expanded = truncate_lines (capped text) max_lines in
    record {
      truncated = by_lines.text;
      is_truncated = by_length.is_truncated || by_lines.is_truncated;
      expanded_text = expanded.text;
      expanded_truncated = expanded.is_truncated;
    }
