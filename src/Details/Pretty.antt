-- ===== src/Details/Pretty.antt =====
-- formatJsonPretty (frontend/src/workbench/tabs/TableTab/components/panes/details/formatters.ts)
-- writes what JSON.stringify writes.
use vaultsql.Prelude.{
  ℕ, zero, suc, ◌+◌, List, [], ◌∷◌, ◌++◌, map, append_assoc, some, ◌≡◌, refl, ap, ◌∙◌, sym, arith,
  Text, false, codes, join, leb,
}
use vaultsql.Details.Json.{
  JsonValue, null, undefined, string, number, boolean, array, object, Items, no_items, item, Fields,
  no_fields, field, bracketed, serialize, serialize_items, serialize_fields, json_stringify,
}
use vaultsql.Details.Formatters.{
  indent_of, block, stringify, stringify_items, stringify_fields, format_json_pretty,
}

-- A value without undefined whose arrays and objects are nested at most so many levels deep.
unfoldable mutual
  pub IsNested : ℕ → JsonValue → Type 0
  IsNested n null = Unit
  IsNested n undefined = ⊥
  IsNested n (string s) = Unit
  IsNested n (number t) = Unit
  IsNested n (boolean b) = Unit
  IsNested zero (array vs) = ⊥
  IsNested (suc n) (array vs) = AllItems n vs
  IsNested zero (object fs) = ⊥
  IsNested (suc n) (object fs) = AllFields n fs

  pub AllItems : ℕ → Items → Type 0
  AllItems n no_items = Unit
  AllItems n (item v vs) = IsNested n v × AllItems n vs

  pub AllFields : ℕ → Fields → Type 0
  AllFields n no_fields = Unit
  AllFields n (field key v fs) = IsNested n v × AllFields n fs

indent_of-suc : (depth : ℕ) → indent_of depth ++ codes "  " ≡ indent_of (suc depth)
indent_of-suc zero = refl
indent_of-suc (suc depth) = ap (λ t. codes "  " ++ t) (indent_of-suc depth)

-- An indentation in every separator is one before every part.
join-indent :
    (sep indent p : Text) (ps : List Text)
    → indent ++ join (sep ++ indent) (p ∷ ps) ≡ join sep (map (λ t. indent ++ t) (p ∷ ps))
join-indent sep indent p [] = refl
join-indent sep indent p (q ∷ ps) =
    let later = join (sep ++ indent) (q ∷ ps) in
    ap (λ t. indent ++ (p ++ t))
      (append_assoc sep indent later ∙ ap (λ t. sep ++ t) (join-indent sep indent q ps))
    ∙ sym (append_assoc indent p _)

-- The parts of an array or object, each behind the indentation that both texts give it.
bracketed-block :
    (open_ close : Text) (depth : ℕ) (parts : List Text)
    → bracketed open_ close (indent_of depth) (indent_of (suc depth)) parts
      ≡ block open_ close depth (map (λ t. indent_of (suc depth) ++ t) parts)
bracketed-block open_ close depth [] = refl
bracketed-block open_ close depth (p ∷ ps) =
    let indent = indent_of (suc depth) in
    ap (λ t. open_ ++ (codes "\n" ++ t))
      (sym (append_assoc indent _ _)
        ∙ ap (λ t. t ++ (codes "\n" ++ (indent_of depth ++ (close ++ []))))
            (join-indent (codes ",\n") indent p ps))

deeper : (m depth n : ℕ) → m ≡ depth + suc n → leb m depth ≡ false
deeper m depth n e = ground arith

-- With n levels left of m, at this depth.
mutual
  unfolding IsNested stringify serialize

  serialize-stringify :
      (m n depth : ℕ) (v : JsonValue)
      → m ≡ depth + n
      → IsNested n v
      → serialize (indent_of depth) v ≡ some (stringify m depth v)
  serialize-stringify m n depth null e h = refl
  serialize-stringify m n depth undefined e h = elim h [ ]
  serialize-stringify m n depth (string s) e h = refl
  serialize-stringify m n depth (number t) e h = refl
  serialize-stringify m n depth (boolean b) e h = refl
  serialize-stringify m zero depth (array vs) e h = elim h [ ]
  serialize-stringify m (suc n) depth (array vs) e h =
      rw (deeper m depth n e, indent_of-suc depth)
        (ap some (
          bracketed-block (codes "[") (codes "]") depth _
          ∙ ap (block (codes "[") (codes "]") depth)
              (items-stringify m n (suc depth) vs (omega (arith, e)) h)))
  serialize-stringify m zero depth (object fs) e h = elim h [ ]
  serialize-stringify m (suc n) depth (object fs) e h =
      rw (deeper m depth n e, indent_of-suc depth)
        (ap some (
          bracketed-block (codes "{") (codes "}") depth _
          ∙ ap (block (codes "{") (codes "}") depth)
              (fields-stringify m n (suc depth) fs (omega (arith, e)) h)))

  items-stringify :
      (m n depth : ℕ) (vs : Items)
      → m ≡ depth + n
      → AllItems n vs
      → map (λ t. indent_of depth ++ t) (serialize_items (indent_of depth) vs)
        ≡ stringify_items m depth vs
  items-stringify m n depth no_items e h = refl
  items-stringify m n depth (item v vs) e (hv, hs) =
      rw (serialize-stringify m n depth v e hv, items-stringify m n depth vs e hs) refl

  fields-stringify :
      (m n depth : ℕ) (fs : Fields)
      → m ≡ depth + n
      → AllFields n fs
      → map (λ t. indent_of depth ++ t) (serialize_fields (indent_of depth) fs)
        ≡ stringify_fields m depth fs
  fields-stringify m n depth no_fields e h = refl
  fields-stringify m n depth (field key v fs) e (hv, hs) =
      rw (serialize-stringify m n depth v e hv, fields-stringify m n depth fs e hs) refl

-- A value without undefined, whose arrays and objects are nested at most as deep as the limit
-- allows, is written as JSON.stringify writes it with two spaces.
pub format_json_pretty_lem :
    (v : JsonValue) (max_depth : ℕ)
    → IsNested max_depth v
    → json_stringify v ≡ some (format_json_pretty v max_depth)
unfolding json_stringify format_json_pretty
format_json_pretty_lem v max_depth h = serialize-stringify max_depth max_depth 0 v (omega arith) h
