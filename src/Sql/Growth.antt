-- ===== src/Sql/Growth.antt =====
-- Doubling a character changes a text exactly if the text holds it.
use vaultsql.Prelude.{
  ℕ, ◌≤◌, ◌<◌, true, false, [], ◌∷◌, ◌++◌, ◌≡◌, refl, ap, arith, Text, has, replace_all, length,
  length-append, ◌↔◌, Bool-cases, inl, inr,
}

module _ (q : ℕ) where
  length-le-replace_all : (s : Text) → length s ≤ length (replace_all q (q ∷ q ∷ []) s)
  length-le-replace_all [] = omega arith
  length-le-replace_all (c ∷ s) = ground (arith, length-le-replace_all s)

  length-lt-replace_all :
      (s : Text) → has q s ≡ true → length s < length (replace_all q (q ∷ q ∷ []) s)
  length-lt-replace_all [] h = cc
  length-lt-replace_all (c ∷ s) h = ground (arith, length-le-replace_all s, length-lt-replace_all s)

  pub replace_all_unchanged : (s : Text) → has q s ≡ false → replace_all q (q ∷ q ∷ []) s ≡ s
  replace_all_unchanged [] h = refl
  replace_all_unchanged (c ∷ s) h = ground (arith, replace_all_unchanged s)

  -- In front of any text that follows.
  pub replace_all-append_iff :
      (s t : Text) → (replace_all q (q ∷ q ∷ []) s ++ t ≡ s ++ t) ↔ (has q s ≡ false)
  replace_all-append_iff s t = (longer, λ h. ap (λ u. u ++ t) (replace_all_unchanged s h))
    where
      longer : replace_all q (q ∷ q ∷ []) s ++ t ≡ s ++ t → has q s ≡ false
      longer e = elim (Bool-cases (has q s)) [
        | inl h ↦ absurd (
            omega (
              arith,
              length-lt-replace_all s h,
              ap length e,
              length-append (replace_all q (q ∷ q ∷ []) s) t,
              length-append s t,
            ))
        | inr h ↦ h
      ]
