-- ===== src/Grid/Reconciled.antt =====
-- A stored order of columns against the columns of a new result.
use vaultsql.Prelude.{
  Bool, true, false, not, ◌&&◌, ◌||◌, List, [], ◌∷◌, ◌++◌, append-nil, ◌≡◌, refl, sym, ◌∙◌, arith,
  Text, same, same_refl, same_sound, keep, Bool-cases, inl, inr, ap,
}
use vaultsql.Grid.ColumnOrder.{is_in, reconcile_columns}

-- No column twice.
abbrev pub Distinct : List Text → Type 0
Distinct [] = Unit
Distinct (c ∷ cs) = (is_in c cs ≡ false) × Distinct cs

pub is_in-append : (c : Text) (xs ys : List Text) → is_in c (xs ++ ys) ≡ (is_in c xs || is_in c ys)
is_in-append c [] ys = refl
is_in-append c (x ∷ xs) ys = ground (arith, is_in-append c xs ys)

pub is_in-keep :
    (p : Text → Bool) (c : Text) (xs : List Text) → is_in c (keep p xs) ≡ (p c && is_in c xs)
is_in-keep p c [] = ground arith
is_in-keep p c (x ∷ xs) =
    let hyp = is_in-keep p c xs in
    elim (Bool-cases (same x c)) [
      | inl e ↦ let same_test : p x ≡ p c = ap p (same_sound x c e) in ground arith
      | inr e ↦ ground arith
    ]

Distinct-keep : (p : Text → Bool) (xs : List Text) → Distinct xs → Distinct (keep p xs)
Distinct-keep p [] d = tt
Distinct-keep p (x ∷ xs) (h, d) =
    let gone = is_in-keep p x xs in
    let hyp = Distinct-keep p xs d in
    elim (Bool-cases (p x)) [ inl e ↦ rw e (ground arith, hyp) | inr e ↦ rw e hyp ]

Distinct-append :
    (xs ys : List Text)
    → Distinct xs
    → Distinct ys
    → ((c : Text) → is_in c xs ≡ true → is_in c ys ≡ false)
    → Distinct (xs ++ ys)
Distinct-append [] ys d e apart = e
Distinct-append (x ∷ xs) ys (h, d) e apart =
    let there : is_in x (x ∷ xs) ≡ true = ground (arith, same_refl x) in
    let away = apart x there in
    (is_in-append x xs ys ∙ ground arith, Distinct-append xs ys d e (λ c k. apart c (ground arith)))

keep_all :
    (p : Text → Bool) (xs : List Text)
    → ((c : Text) → is_in c xs ≡ true → p c ≡ true)
    → keep p xs ≡ xs
keep_all p [] h = refl
keep_all p (x ∷ xs) h =
    let here = h x (ground (arith, same_refl x)) in
    rw here (ap (λ l. x ∷ l) (keep_all p xs (λ c k. h c (ground arith))))

keep_none :
    (p : Text → Bool) (xs : List Text)
    → ((c : Text) → is_in c xs ≡ true → p c ≡ false)
    → keep p xs ≡ []
keep_none p [] h = refl
keep_none p (x ∷ xs) h =
    let here = h x (ground (arith, same_refl x)) in
    rw here (keep_none p xs (λ c k. h c (ground arith)))

either_way : (s c : Bool) → ((c && s) || (not s && c)) ≡ c
either_way s c = ground arith

-- The columns of the reconciled order are those of the result.
is_in-reconcile_columns :
    (c : Text) (stored current : List Text)
    → is_in c (reconcile_columns stored current) ≡ is_in c current
unfolding reconcile_columns
is_in-reconcile_columns c stored current =
    let kept = keep (λ col. is_in col current) stored in
    let added = keep (λ col. not (is_in col stored)) current in
    is_in-append c kept added
    ∙ rw
        (
          is_in-keep (λ col. is_in col current) c stored,
          is_in-keep (λ col. not (is_in col stored)) c current,
        )
        (either_way (is_in c stored) (is_in c current))

Distinct-reconcile_columns :
    (stored current : List Text)
    → Distinct stored
    → Distinct current
    → Distinct (reconcile_columns stored current)
unfolding reconcile_columns
Distinct-reconcile_columns stored current d e =
    Distinct-append _ _ (Distinct-keep _ stored d) (Distinct-keep _ current e) (λ c k.
      let was = is_in-keep (λ col. is_in col current) c stored in
      let new = is_in-keep (λ col. not (is_in col stored)) c current in ground arith)

reconciled_of_parts :
    (order current : List Text)
    → keep (λ col. is_in col current) order ≡ order
    → keep (λ col. not (is_in col order)) current ≡ []
    → reconcile_columns order current ≡ order
unfolding reconcile_columns
reconciled_of_parts order current kept added = rw (kept, added, append-nil)

reconcile_columns-stable :
    (stored current : List Text)
    → reconcile_columns (reconcile_columns stored current) current
      ≡ reconcile_columns stored current
reconcile_columns-stable stored current =
    let order = reconcile_columns stored current in
    reconciled_of_parts order current
      (keep_all _ order (λ c k. sym (is_in-reconcile_columns c stored current) ∙ k))
      (keep_none _ current (λ c k. ap not (is_in-reconcile_columns c stored current ∙ k)))

-- Reconciling a stored order with the columns of a result shows exactly the result's columns,
-- however the stored order looks; no column is shown twice if none is stored or sent twice; and
-- reconciling again with the same columns changes nothing.
pub reconcile_columns_lem :
    (stored current : List Text)
    → ((c : Text) → is_in c (reconcile_columns stored current) ≡ is_in c current)
      × (Distinct stored → Distinct current → Distinct (reconcile_columns stored current))
      × (reconcile_columns (reconcile_columns stored current) current
          ≡ reconcile_columns stored current)
reconcile_columns_lem stored current = (
  λ c. is_in-reconcile_columns c stored current,
  Distinct-reconcile_columns stored current,
  reconcile_columns-stable stored current,
)
