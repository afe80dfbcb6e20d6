-- ===== src/Details/Json.antt =====
-- The values that a row can hold, with what they hold, and JSON.stringify of ECMAScript, which
-- frontend/src/workbench/tabs/TableTab/components/panes/details/formatters.ts calls. A finite number
-- comes with the text that String makes of it, and the fields of an object with distinct names.
use vaultsql.Prelude.{
  ℕ, Bool, true, false, ◌+◌, ◌/◌, ◌%◌, ◌&&◌, ◌||◌, List, [], ◌∷◌, ◌++◌, Option, none, some, Text,
  codes, concat, join, or_else, ltb, leb, ◌==◌, if◌then◌else◌,
}

mutual
  pub data JsonValue : Type 0 where
    null undefined : JsonValue
    string : Text → JsonValue
    number : Text → JsonValue
    boolean : Bool → JsonValue
    array : Items → JsonValue
    object : Fields → JsonValue

  pub data Items : Type 0 where
    no_items : Items
    item : JsonValue → Items → Items

  pub data Fields : Type 0 where
    no_fields : Fields
    field : Text → JsonValue → Fields → Fields

abbrev hex_digit : ℕ → ℕ
hex_digit n = if ltb n 10 then 48 + n else 87 + n

-- `\u` and four digits
abbrev unicode_escape : ℕ → Text
unicode_escape c =
    codes "\\u"
    ++ hex_digit (c / 4096)
      ∷ hex_digit (c / 256 % 16)
      ∷ hex_digit (c / 16 % 16)
      ∷ hex_digit (c % 16)
      ∷ []

abbrev is_high : ℕ → Bool
is_high c = leb 0xd800 c && leb c 0xdbff

abbrev is_low : ℕ → Bool
is_low c = leb 0xdc00 c && leb c 0xdfff

abbrev quoted_unit : ℕ → Text
quoted_unit c =
    if c == 8
    then codes "\\b"
    else if c == 9
    then codes "\\t"
    else if c == 10
    then codes "\\n"
    else if c == 12
    then codes "\\f"
    else if c == 13
    then codes "\\r"
    else if c == 34
    then codes "\\\""
    else if c == 92
    then codes "\\\\"
    else if ltb c 32 || is_high c || is_low c
    then unicode_escape c
    else c ∷ []

-- A surrogate is escaped where it is not one of a pair; the first argument is a high one just read.
abbrev quoted : Option ℕ → Text → Text
quoted none [] = []
quoted (some h) [] = unicode_escape h
quoted none (c ∷ cs) = elim (is_high c) [
  | true ↦ quoted (some c) cs
  | false ↦ quoted_unit c ++ quoted none cs
]
quoted (some h) (c ∷ cs) = elim (is_low c) [
  | true ↦ h ∷ c ∷ quoted none cs
  | false ↦
      unicode_escape h
      ++ elim (is_high c) [ true ↦ quoted (some c) cs | false ↦ quoted_unit c ++ quoted none cs ]
]

-- `JSON.stringify(s)` of a string
unfoldable pub quote : Text → Text
quote s = concat (codes "\"" ∷ quoted none s ∷ codes "\"" ∷ [])

abbrev pub true_or_false : Bool → Text
true_or_false b = if b then codes "true" else codes "false"

-- SerializeJSONArray and SerializeJSONObject: the parts between brackets, one on each line.
abbrev pub bracketed : Text → Text → Text → Text → List Text → Text
bracketed open_ close stepback indent [] = open_ ++ close
bracketed open_ close stepback indent (p ∷ ps) = concat (
    open_
    ∷ codes "\n"
    ∷ indent
    ∷ join (codes ",\n" ++ indent) (p ∷ ps)
    ∷ codes "\n"
    ∷ stepback
    ∷ close
    ∷ [])

abbrev pub member : Text → Option Text → List Text → List Text
member key none parts = parts
member key (some text) parts = concat (quote key ∷ codes ": " ∷ text ∷ []) ∷ parts

-- SerializeJSONProperty with a gap of two spaces, behind an indentation; none for undefined.
unfoldable mutual
  unfolding quote

  pub serialize : Text → JsonValue → Option Text
  serialize indent null = some (codes "null")
  serialize indent undefined = none
  serialize indent (string s) = some (quote s)
  serialize indent (number n) = some n
  serialize indent (boolean b) = some (true_or_false b)
  serialize indent (array items) =
      let inner = indent ++ codes "  " in
      some (bracketed (codes "[") (codes "]") indent inner (serialize_items inner items))
  serialize indent (object fields) =
      let inner = indent ++ codes "  " in
      some (bracketed (codes "{") (codes "}") indent inner (serialize_fields inner fields))

  pub serialize_items : Text → Items → List Text
  serialize_items indent no_items = []
  serialize_items indent (item v vs) =
      or_else (serialize indent v) (codes "null") ∷ serialize_items indent vs

  pub serialize_fields : Text → Fields → List Text
  serialize_fields indent no_fields = []
  serialize_fields indent (field key v fs) =
      member key (serialize indent v) (serialize_fields indent fs)

-- `JSON.stringify(value, null, 2)`
unfoldable pub json_stringify : JsonValue → Option Text
unfolding serialize
json_stringify v = serialize [] v
