-- ===== src/Backend/Lines.antt =====
-- Text that is split at line ends in pieces.
use vaultsql.Prelude.{
  ℕ, true, false, ◌||◌, List, [], ◌∷◌, ◌++◌, append_assoc, append-nil, ◌≡◌, refl, arith, Text, has,
  split, split_from, ◌==◌, Bool-cases, inl, inr, ◌∙◌, ap, sym,
}
use vaultsql.Backend.Stream.{pop}

-- Text without the separator is taken into the current part.
pub split_from-append :
    (c : ℕ) (s t cur : Text)
    → has c s ≡ false
    → split_from c cur (s ++ t) ≡ split_from c (cur ++ s) t
split_from-append c [] t cur h = rw append-nil
split_from-append c (x ∷ s) t cur h =
    ground (arith, split_from-append c s t (cur ++ x ∷ []), append_assoc cur (x ∷ []) s)

has-append : (c : ℕ) (s t : Text) → has c (s ++ t) ≡ (has c s || has c t)
has-append c [] t = refl
has-append c (x ∷ s) t = ground (arith, has-append c s t)

-- A separator ends a part, and any other character is taken into it.
split_from-sep :
    (c x : ℕ) (s cur : Text) → (x == c) ≡ true → split_from c cur (x ∷ s) ≡ cur ∷ split_from c [] s
split_from-sep c x s cur e = ground arith

split_from-other :
    (c x : ℕ) (s cur : Text)
    → (x == c) ≡ false
    → split_from c cur (x ∷ s) ≡ split_from c (cur ++ x ∷ []) s
split_from-other c x s cur e = ground arith

abbrev with_part : Text → List Text × Text → List Text × Text
with_part t (init, last) = (t ∷ init, last)

-- A split is never empty, so a part in front is kept by `pop`.
pop-cons :
    (t : Text) (c : ℕ) (s cur : Text)
    → pop (t ∷ split_from c cur s) ≡ with_part t (pop (split_from c cur s))
pop-cons t c [] cur = refl
pop-cons t c (x ∷ s) cur = elim (Bool-cases (x == c)) [
  | inl e ↦ rw (split_from-sep c x s cur e) refl
  | inr e ↦ rw (split_from-other c x s cur e) (pop-cons t c s (cur ++ x ∷ []))
]

-- The last part holds no separator.
pub has-pop :
    (c : ℕ) (s cur : Text) → has c cur ≡ false → has c (pop (split_from c cur s)).1 ≡ false
has-pop c [] cur h = h
has-pop c (x ∷ s) cur h = elim (Bool-cases (x == c)) [
  | inl e ↦ rw (split_from-sep c x s cur e, pop-cons cur c s []) (has-pop c s [] refl)
  | inr e ↦
      rw (split_from-other c x s cur e)
        (has-pop c s (cur ++ x ∷ []) (has-append c cur (x ∷ []) ∙ ground arith))
]

-- What follows is split behind the last part.
pub split_from-pop :
    (c : ℕ) (s t cur : Text)
    → split_from c cur (s ++ t)
      ≡ (pop (split_from c cur s)).0 ++ split_from c (pop (split_from c cur s)).1 t
split_from-pop c [] t cur = refl
split_from-pop c (x ∷ s) t cur = elim (Bool-cases (x == c)) [
  | inl e ↦
      rw (split_from-sep c x (s ++ t) cur e, split_from-sep c x s cur e, pop-cons cur c s [])
        (ap (λ l. cur ∷ l) (split_from-pop c s t []))
  | inr e ↦
      rw (split_from-other c x (s ++ t) cur e, split_from-other c x s cur e)
        (split_from-pop c s t (cur ++ x ∷ []))
]

-- The whole text is split as the pieces are, one after the other.
pub split-append :
    (c : ℕ) (s t : Text)
    → split c (s ++ t) ≡ (pop (split c s)).0 ++ split c ((pop (split c s)).1 ++ t)
split-append c s t =
    split_from-pop c s t []
    ∙ ap (λ l. (pop (split c s)).0 ++ l)
        (sym (split_from-append c (pop (split c s)).1 t [] (has-pop c s [] refl)))
