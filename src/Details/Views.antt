-- ===== src/Details/Views.antt =====
-- What JsonValue draws
-- (frontend/src/workbench/tabs/TableTab/components/panes/details/DetailValueRenderer.tsx).
use vaultsql.Prelude.{
  ℕ, ◌+◌, ◌≤◌, ◌<◌, true, false, ◌||◌, ◌≡◌, refl, ap, ◌∙◌, ◌⊎◌, inl, inr, arith, Text, codes, take,
  length, length-take, length-take-all, length-append, ltb, Bool-cases,
}
use vaultsql.Details.Formatters.{
  Truncation, truncate_lines, was_cut, capped, JsonView, json_view, detail_value_max_lines,
  detail_value_max_length,
}
use vaultsql.Details.Truncated.{truncate_lines_lem}

less_of : (a b : ℕ) → ltb a b ≡ true → a < b
less_of a b h = ground arith

at_most_of : (a b : ℕ) → ltb a b ≡ false → b ≤ a
at_most_of a b h = ground arith

length-capped : (text : Text) → length (capped text) ≤ detail_value_max_length + 3
length-capped text = elim (Bool-cases (ltb 2000 (length text))) [
  | inl e ↦
      rw e (omega (arith, length-append (take 2000 text) (codes "..."), length-take 2000 text))
  | inr e ↦ rw e (ground (arith, e))
]

-- The text was cut by fewer characters than the dots that were put there.
abbrev pub IsNarrow : Text → Type 0
IsNarrow text =
    (detail_value_max_length < length text) × (length text ≤ detail_value_max_length + 3)

abbrev pub IsTold : Text → JsonView → Type 0
IsTold text v =
    (v.was_truncated ≡ true)
    ⊎ ((v.was_truncated ≡ false) × ((v.capped_json ≡ text) ⊎ IsNarrow text))

was_cut-kept :
    (r : Truncation) (text : Text)
    → r.is_truncated ≡ false
    → r.text ≡ text
    → was_cut r text ≡ ltb (length (capped text)) (length text)
was_cut-kept r text e whole =
    ap (λ b. b || ltb (length (capped r.text)) (length text)) e
    ∙ ap (λ t. ltb (length (capped t)) (length text)) whole

was_cut-told : (r : Truncation) (text : Text) → r.is_truncated ≡ true → was_cut r text ≡ true
was_cut-told r text e = ap (λ b. b || ltb (length (capped r.text)) (length text)) e

capped-short : (text : Text) → ltb 2000 (length text) ≡ false → capped text ≡ text
capped-short text e = rw e refl

capped-long : (text : Text) → ltb 2000 (length text) ≡ true → length (capped text) ≡ 2003
capped-long text e =
    let whole : length (take 2000 text) ≡ 2000 = length-take-all 2000 text (ground (arith, e)) in
    rw e (omega (arith, length-append (take 2000 text) (codes "..."), whole))

-- A text of few lines: if it is not said to be truncated, it is shown whole, or it is narrow.
kept_told :
    (text : Text)
    → (ltb (length (capped text)) (length text) ≡ true)
      ⊎ ((ltb (length (capped text)) (length text) ≡ false)
          × ((capped text ≡ text) ⊎ IsNarrow text))
kept_told text = elim (Bool-cases (ltb (length (capped text)) (length text))) [
  | inl e ↦ inl e
  | inr e ↦ inr (
    e,
    elim (Bool-cases (ltb 2000 (length text))) [
      | inl long ↦
          let n = capped-long text long in
          inr
            (less_of _ _ long, omega (arith, n, at_most_of (length (capped text)) (length text) e))
      | inr short ↦ inl (capped-short text short)
    ],
  )
]

view_told :
    (text : Text)
    → (truncate_lines text detail_value_max_lines).is_truncated ≡ true
    → (json_view text).was_truncated ≡ true
unfolding json_view
view_told text e = was_cut-told (truncate_lines text detail_value_max_lines) text e

view_kept :
    (text : Text)
    → (truncate_lines text detail_value_max_lines).is_truncated ≡ false
    → (truncate_lines text detail_value_max_lines).text ≡ text
    → IsTold text (json_view text)
unfolding json_view
view_kept text e whole = elim (kept_told text) [
  | inl said ↦ inl (was_cut-kept (truncate_lines text detail_value_max_lines) text e whole ∙ said)
  | inr (silent, inl same_text) ↦ inr (
    was_cut-kept (truncate_lines text detail_value_max_lines) text e whole ∙ silent,
    inl (ap capped whole ∙ same_text),
  )
  | inr (silent, inr narrow) ↦
      inr (
        was_cut-kept (truncate_lines text detail_value_max_lines) text e whole ∙ silent,
        inr narrow,
      )
]

-- An expanded JSON text is drawn with at most 2003 characters. If it is not said to be truncated it
-- is drawn whole, unless it has 2001 to 2003 characters.
pub json_view_lem :
    (text : Text)
    → let v = json_view text in (length v.capped_json ≤ detail_value_max_length + 3) × IsTold text v
unfolding json_view
json_view_lem text = elim (truncate_lines_lem text 19) [
  | inl (_, whole, e) ↦
      (length-capped (truncate_lines text detail_value_max_lines).text, view_kept text e whole)
  | inr (_, e, _) ↦
      (length-capped (truncate_lines text detail_value_max_lines).text, inl (view_told text e))
]
