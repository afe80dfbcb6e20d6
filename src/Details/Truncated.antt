-- ===== src/Details/Truncated.antt =====
-- Truncated texts of the details pane
-- (frontend/src/workbench/tabs/TableTab/components/panes/details/formatters.ts).
use vaultsql.Prelude.{
  ℕ, zero, suc, ◌+◌, ◌*◌, ◌/◌, ◌≤◌, ◌<◌, true, false, List, [], ◌∷◌, ◌++◌, Option, none, some, ◌≡◌,
  refl, ap, ◌∙◌, sym, ◌⊎◌, inl, inr, arith, Text, codes, join, split, split_from, split_from-hit,
  split_from-miss, take, length, get_elem?, leb, ltb, ◌==◌, Bool-cases, Option-cases, if◌then◌else◌,
  All, All-append, All-take, Lacks, split_from-Lacks, split-join, join-append-one,
}
use vaultsql.Details.Formatters.{Truncation, last_space, truncate_text, truncate_lines}

-- A place that is found is one of a space, at most `m` on from `i`.
pub record IsSpaceAt (i m : ℕ) (text : Text) (j : ℕ) : Type 0 where
  pub ahead : ℕ
  pub place : j ≡ i + ahead
  pub near : ahead ≤ m
  pub space : get_elem? text ahead ≡ some 32

missing : (o : Option ℕ) (j : ℕ) → o ≡ none → o ≡ some j → ⊥
missing o j lost found = cc

here :
    (i m c : ℕ) (cs : Text) (j : ℕ)
    → (if c == 32 then some i else none) ≡ some j
    → IsSpaceAt i m (c ∷ cs) j
here i m c cs j h = elim (Bool-cases (c == 32)) [
  | inl e ↦
      let found : some i ≡ some j = ap (λ b. if b then some i else none) (sym e) ∙ h in
      let same_place : i ≡ j = cc in
      let blank : c ≡ 32 = ground (arith, e) in
      record {
        ahead = 0;
        place = omega (arith, same_place);
        near = omega arith;
        space = ap some blank;
      }
  | inr e ↦ elim (missing _ j (ap (λ b. if b then some i else none) e) h) [ ]
]

last_here :
    (i m c : ℕ) (cs : Text)
    → last_space (suc i) m cs ≡ none
    → last_space i (suc m) (c ∷ cs) ≡ (if c == 32 then some i else none)
last_here i m c cs e = rw (last_space, e) refl

last_later :
    (i m c : ℕ) (cs : Text) (k : ℕ)
    → last_space (suc i) m cs ≡ some k
    → last_space i (suc m) (c ∷ cs) ≡ some k
last_later i m c cs k e = rw (last_space, e) refl

last_space-IsSpaceAt :
    (i m : ℕ) (text : Text) (j : ℕ) → last_space i m text ≡ some j → IsSpaceAt i m text j
last_space-IsSpaceAt i m [] j h = cc
last_space-IsSpaceAt i zero (c ∷ cs) j h = here i zero c cs j h
last_space-IsSpaceAt i (suc m) (c ∷ cs) j h = elim (Option-cases (last_space (suc i) m cs)) [
  | inl e ↦ here i (suc m) c cs j (sym (last_here i m c cs e) ∙ h)
  | inr (k, e) ↦
      let at = last_space-IsSpaceAt (suc i) m cs k e in
      let found : some k ≡ some j = sym (last_later i m c cs k e) ∙ h in
      let same_place : k ≡ j = cc in
      record {
        ahead = suc at.ahead;
        place = omega (arith, at.place, same_place);
        near = omega (arith, at.near);
        space = at.space;
      }
]

non_empty : (cur s : Text) → (l : Text) × (ls : List Text) × (split_from b'\n' cur s ≡ l ∷ ls)
non_empty cur [] = (cur, [], refl)
non_empty cur (x ∷ s) = elim (Bool-cases (x == b'\n')) [
  | inl e ↦ (cur, split b'\n' s, split_from-hit b'\n' x cur s e)
  | inr e ↦
      let (l, ls, found) = non_empty (cur ++ x ∷ []) s in
      (l, ls, split_from-miss b'\n' x cur s e ∙ found)
]

-- The lines of the cut text: the first ones, and a line that says that there are more.
split-cut :
    (n : ℕ) (lines : List Text)
    → All (Lacks b'\n') lines
    → ((l : Text) × (ls : List Text) × (lines ≡ l ∷ ls))
    → split b'\n' (join (codes "\n") (take (suc n) lines) ++ codes "\n...")
      ≡ take (suc n) lines ++ codes "..." ∷ []
split-cut n [] h (l, ls, e) = cc
split-cut n (l ∷ ls) (hl, hs) _ =
    ap (split b'\n') (join-append-one b'\n' l (take n ls) (codes "..."))
    ∙ split-join b'\n' l (take n ls ++ codes "..." ∷ [])
        (hl, All-append _ (take n ls) _ (All-take _ n ls hs) (refl, tt))

-- With a limit of at least one line: a text of no more lines is kept and not called truncated; of
-- any other exactly the first lines are kept, that many, and one more line says so.
pub truncate_lines_lem :
    (text : Text) (n : ℕ)
    → let r = truncate_lines text (suc n) in
      let lines = split b'\n' text in
      ((length lines ≤ suc n) × (r.text ≡ text) × (r.is_truncated ≡ false))
      ⊎ ((suc n < length lines)
          × (r.is_truncated ≡ true)
          × (split b'\n' r.text ≡ take (suc n) lines ++ codes "..." ∷ []))
unfolding truncate_lines
truncate_lines_lem text n = elim (Bool-cases (leb (length (split b'\n' text)) (suc n))) [
  | inl e ↦ inl (ground (arith, e), rw e refl, rw e refl)
  | inr e ↦ inr (
    ground (arith, e),
    rw e refl,
    rw e (split-cut n (split b'\n' text) (split_from-Lacks b'\n' text [] refl) (non_empty [] text)),
  )
]

-- Where a text is cut: at the limit, or at a space behind four fifths of it.
abbrev pub IsCut : Text → ℕ → ℕ → Type 0
IsCut text max_length n =
    (n ≡ max_length) ⊎ ((max_length * 4 / 5 < n) × (n ≤ max_length) × (get_elem? text n ≡ some 32))

abbrev pub CutAt : Text → ℕ → Truncation → ℕ → Type 0
CutAt text max_length r n =
    (r.is_truncated ≡ true) × (r.text ≡ take n text ++ codes "...") × IsCut text max_length n

long_cut :
    (text : Text) (max_length : ℕ) (o : Option ℕ)
    → leb (length text) max_length ≡ false
    → last_space 0 max_length text ≡ o
    → (n : ℕ) × CutAt text max_length (truncate_text text max_length) n
unfolding truncate_text
long_cut text max_length none long e =
    (max_length, (rw (long, e, truncate_text) refl, rw (long, e, truncate_text) refl, inl refl))
long_cut text max_length (some i) long e = elim (Bool-cases (ltb (max_length * 4 / 5) i)) [
  | inl far ↦
      let at = last_space-IsSpaceAt 0 max_length text i e in
      let same_place : at.ahead ≡ i = omega (arith, at.place) in
      (
        i,
        (
          rw (long, e, far, truncate_text) refl,
          rw (long, e, far, truncate_text) refl,
          inr (
            ground (arith, far),
            omega (arith, at.near, same_place),
            ap (get_elem? text) (sym same_place) ∙ at.space,
          ),
        ),
      )
  | inr close ↦ (
    max_length,
    (rw (long, e, close, truncate_text) refl, rw (long, e, close, truncate_text) refl, inl refl),
  )
]

-- A text within the limit is kept and not called truncated. A longer one is called truncated, and
-- it is cut at the limit, or at a space behind four fifths of it, with three dots behind.
pub truncate_text_lem :
    (text : Text) (max_length : ℕ)
    → let r = truncate_text text max_length in
      ((length text ≤ max_length) × (r.text ≡ text) × (r.is_truncated ≡ false))
      ⊎ ((max_length < length text) × ((n : ℕ) × CutAt text max_length r n))
unfolding truncate_text
truncate_text_lem text max_length = elim (Bool-cases (leb (length text) max_length)) [
  | inl e ↦ inl (ground (arith, e), rw (e, truncate_text) refl, rw (e, truncate_text) refl)
  | inr e ↦ inr (ground (arith, e), long_cut text max_length (last_space 0 max_length text) e refl)
]
