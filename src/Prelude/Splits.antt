-- ===== src/Prelude/Splits.antt =====
-- Texts that are split at a character, and joined.
use Prim.Native.Nat.{ℕ, zero, suc}
use mathlib.Core.Path.{◌≡◌, refl, ap, ◌∙◌, sym, subst}
use mathlib.Core.Logic.{inl, inr}
use mathlib.Core.Bool.{true, false, ◌||◌}
use mathlib.Core.List.{List, [], ◌∷◌, ◌++◌, append_assoc, append-nil}
use native.Mathlib.Omega.{arith}
use vaultsql.Prelude.Tests.{◌==◌, ==_refl, Bool-cases}
use vaultsql.Prelude.Lists.{All, take}
use vaultsql.Prelude.Texts.{Text, has, split, split_from, join}

-- Text without the separator is taken into the current part.
pub split_from-append :
    (c : ℕ) (s t cur : Text)
    → has c s ≡ false
    → split_from c cur (s ++ t) ≡ split_from c (cur ++ s) t
split_from-append c [] t cur h = rw append-nil
split_from-append c (x ∷ s) t cur h =
    ground (arith, split_from-append c s t (cur ++ x ∷ []), append_assoc cur (x ∷ []) s)

pub split_from-lacks :
    (c : ℕ) (s cur : Text) → has c s ≡ false → split_from c cur s ≡ (cur ++ s) ∷ []
split_from-lacks c [] cur h = rw append-nil
split_from-lacks c (x ∷ s) cur h =
    ground (arith, split_from-lacks c s (cur ++ x ∷ []), append_assoc cur (x ∷ []) s)

module _ (c : ℕ) where
  pub split_from-hit :
      (x : ℕ) (cur s : Text) → (x == c) ≡ true → split_from c cur (x ∷ s) ≡ cur ∷ split_from c [] s
  split_from-hit x cur s e = rw (split_from, e) refl

  pub split_from-miss :
      (x : ℕ) (cur s : Text)
      → (x == c) ≡ false
      → split_from c cur (x ∷ s) ≡ split_from c (cur ++ x ∷ []) s
  split_from-miss x cur s e = rw (split_from, e) refl

  abbrev pub Lacks : Text → Type 0
  Lacks t = has c t ≡ false

  has-append : (s t : Text) → has c (s ++ t) ≡ (has c s || has c t)
  has-append [] t = refl
  has-append (x ∷ s) t = ground (arith, has-append s t)

  pub split_from-Lacks : (s cur : Text) → Lacks cur → All Lacks (split_from c cur s)
  split_from-Lacks [] cur h = (h, tt)
  split_from-Lacks (x ∷ s) cur h = elim (Bool-cases (x == c)) [
    | inl e ↦ subst (All Lacks) (sym (split_from-hit x cur s e)) (h, split_from-Lacks s [] refl)
    | inr e ↦
        let longer : Lacks (cur ++ x ∷ []) = has-append cur (x ∷ []) ∙ rw (h, e) refl in
        subst (All Lacks) (sym (split_from-miss x cur s e))
          (split_from-Lacks s (cur ++ x ∷ []) longer)
  ]

  -- Lines are read back.
  pub split-join :
      (l : Text) (ls : List Text) → All Lacks (l ∷ ls) → split c (join (c ∷ []) (l ∷ ls)) ≡ l ∷ ls
  split-join l [] (h, _) = split_from-lacks c l [] h
  split-join l (m ∷ ls) (h, hs) =
      split_from-append c l (c ∷ join (c ∷ []) (m ∷ ls)) [] h
      ∙ (split_from-hit c l _ (==_refl c) ∙ ap (λ ts. l ∷ ts) (split-join m ls hs))

  pub join-append-one :
      (l : Text) (ls : List Text) (t : Text)
      → join (c ∷ []) (l ∷ ls) ++ (c ∷ t) ≡ join (c ∷ []) (l ∷ (ls ++ t ∷ []))
  join-append-one l [] t = refl
  join-append-one l (m ∷ ls) t =
      append_assoc l (c ∷ join (c ∷ []) (m ∷ ls)) (c ∷ t)
      ∙ ap (λ ts. l ++ (c ∷ ts)) (join-append-one m ls t)

pub All-take {ℓ κ} :
    {A : Type ℓ} (P : A → Type κ) (n : ℕ) (xs : List A) → All P xs → All P (take n xs)
All-take P zero xs h = tt
All-take P (suc n) [] h = tt
All-take P (suc n) (x ∷ xs) (p, h) = (p, All-take P n xs h)
