-- ===== src/Queue/Target.antt =====
-- Targets are written and read back.
use vaultsql.Prelude.{
  ℕ, true, false, ◌||◌, List, [], ◌∷◌, ◌++◌, append-nil, none, some, ◌≡◌, ◌↔◌, refl, arith, Text,
  has, split, split_from, ◌==◌, ◌+◌, suc, length, if◌then◌else◌, Option-cases, inl, inr,
  split_from-append, split_from-lacks,
}
use vaultsql.Queue.Entries.{create_target, parse_target, two_parts}

-- A name of a schema and one of a table without a dot are read back.
parse-create :
    (schema table : Text)
    → has b'.' schema ≡ false
    → has b'.' table ≡ false
    → parse_target (create_target schema table) ≡ some (schema, table)
unfolding parse_target create_target
parse-create schema table h k = rw (
  split_from-append b'.' schema (b'.' ∷ (table ++ [])) [] h,
  append-nil table,
  split_from-lacks b'.' table [] k,
)

occurrences : ℕ → Text → ℕ
occurrences c [] = 0
occurrences c (x ∷ s) = (if x == c then 1 else 0) + occurrences c s

occurrences-append :
    (c : ℕ) (s t : Text) → occurrences c (s ++ t) ≡ occurrences c s + occurrences c t
unfolding occurrences
occurrences-append c [] t = omega arith
occurrences-append c (x ∷ s) t = omega (arith, occurrences-append c s t)

length-split_from : (c : ℕ) (s cur : Text) → length (split_from c cur s) ≡ suc (occurrences c s)
unfolding occurrences
length-split_from c [] cur = refl
length-split_from c (x ∷ s) cur =
    ground (arith, length-split_from c s [], length-split_from c s (cur ++ x ∷ []))

has_of_occurrences : (c : ℕ) (s : Text) → occurrences c s ≡ 0 → has c s ≡ false
unfolding occurrences
has_of_occurrences c [] h = refl
has_of_occurrences c (x ∷ s) h = ground (arith, has_of_occurrences c s)

length_of_two_parts : (ts : List Text) {p : Text × Text} → two_parts ts ≡ some p → length ts ≡ 2
length_of_two_parts [] h = cc
length_of_two_parts (a ∷ []) h = cc
length_of_two_parts (a ∷ b ∷ []) h = refl
length_of_two_parts (a ∷ b ∷ c ∷ ts) h = cc

no_dots :
    (schema table : Text)
    → length (split b'.' (create_target schema table)) ≡ 2
    → (has b'.' schema ≡ false) × (has b'.' table ≡ false)
unfolding create_target
no_dots schema table h =
    let dots = occurrences-append b'.' schema (b'.' ∷ (table ++ [])) in
    let rest = occurrences-append b'.' table [] in
    let parts = length-split_from b'.' (schema ++ (b'.' ∷ (table ++ []))) [] in
    (
      has_of_occurrences b'.' schema (unfold occurrences in omega arith),
      has_of_occurrences b'.' table (unfold occurrences in omega arith),
    )

dotted :
    (schema table : Text)
    → (has b'.' schema || has b'.' table) ≡ true
    → parse_target (create_target schema table) ≡ none
unfolding parse_target
dotted schema table h = elim (Option-cases (parse_target (create_target schema table))) [
  | inl e ↦ e
  | inr (p, e) ↦ let plain = no_dots schema table (length_of_two_parts _ e) in ground arith
]

-- A target is read back as the schema and the table that it was made of exactly if neither name
-- holds a dot; otherwise reading it is an error.
pub parse-create_iff :
    (schema table : Text)
    → ((parse_target (create_target schema table) ≡ some (schema, table))
        ↔ ((has b'.' schema ≡ false) × (has b'.' table ≡ false)))
      × ((has b'.' schema || has b'.' table) ≡ true
          → parse_target (create_target schema table) ≡ none)
unfolding parse_target
parse-create_iff schema table = (
  (λ e. no_dots schema table (length_of_two_parts _ e), λ h. parse-create schema table h.0 h.1),
  dotted schema table,
)
