-- ===== src/Prelude/Maps.antt =====
-- A JavaScript `Map`, or an object used as one, with texts for keys: its entries in insertion order.
use mathlib.Core.Path.{◌≡◌, refl, ap, sym, ◌∙◌}
use mathlib.Core.Logic.{inl, inr, Lift}
use mathlib.Core.Bool.{Bool, false}
use mathlib.Core.Option.{Option, none, some}
use mathlib.Core.List.{List, [], ◌∷◌}
use native.Mathlib.Omega.{arith}
use vaultsql.Prelude.Tests.{first_of, if◌then◌else◌, Bool-cases}
use vaultsql.Prelude.Texts.{Text, same, same_sound, same_comm}

module _ {ℓ} {V : Type ℓ} where
  -- `map.get(key)`
  abbrev pub lookup : Text → List (Text × V) → Option V
  lookup k [] = none
  lookup k ((j, v) ∷ m) = if same j k then some v else lookup k m

  -- `map.set(key, value)`
  unfoldable pub insert : Text → V → List (Text × V) → List (Text × V)
  insert k v [] = (k, v) ∷ []
  insert k v ((j, w) ∷ m) = if same j k then (k, v) ∷ m else (j, w) ∷ insert k v m

  -- `map.delete(key)`, and the deletion of all keys that pass a test.
  unfoldable pub erase_if : (Text → Bool) → List (Text × V) → List (Text × V)
  erase_if p [] = []
  erase_if p ((j, w) ∷ m) = let rest = erase_if p m in if p j then rest else (j, w) ∷ rest

  pub lookup-insert :
      (j k : Text) (v : V) (m : List (Text × V))
      → lookup j (insert k v m) ≡ (if same k j then some v else lookup j m)
  unfolding insert
  lookup-insert j k v [] = refl
  lookup-insert j k v ((i, w) ∷ m) =
      let hyp = lookup-insert j k v m in
      elim (Bool-cases (same i k)) [
        | inl e ↦
            let twin : same i j ≡ same k j = ap (λ x. same x j) (same_sound i k e) in ground arith
        | inr e ↦ elim (Bool-cases (same i j)) [
          | inl h ↦
              let twin : same i k ≡ same j k = ap (λ x. same x k) (same_sound i j h) in
              let back : same k j ≡ false = same_comm k j ∙ (sym twin ∙ e) in ground arith
          | inr h ↦ ground arith
        ]
      ]

  pub lookup-erase_if :
      (p : Text → Bool) (j : Text) (m : List (Text × V))
      → lookup j (erase_if p m) ≡ (if p j then none else lookup j m)
  unfolding erase_if
  lookup-erase_if p j [] = ground arith
  lookup-erase_if p j ((i, w) ∷ m) =
      let hyp = lookup-erase_if p j m in
      elim (Bool-cases (same i j)) [
        | inl e ↦ let twin : p i ≡ p j = ap p (same_sound i j e) in ground arith
        | inr e ↦ ground arith
      ]

  -- `for (const [key, value] of news) m.set(key, value)`
  unfoldable pub merge : List (Text × V) → List (Text × V) → List (Text × V)
  unfolding insert
  merge m [] = m
  merge m ((k, v) ∷ news) = merge (insert k v m) news

  -- No key has two entries.
  abbrev pub Unique : List (Text × V) → Type ℓ
  Unique [] = Lift {0, ℓ} Unit
  Unique ((k, v) ∷ m) = (lookup k m ≡ none) × Unique m

  pub Unique-insert : (k : Text) (v : V) (m : List (Text × V)) → Unique m → Unique (insert k v m)
  unfolding insert
  Unique-insert k v [] u = (refl, u)
  Unique-insert k v ((i, w) ∷ m) (n, u) = elim (Bool-cases (same i k)) [
    | inl e ↦ rw e (ap (λ x. lookup x m) (sym (same_sound i k e)) ∙ n, u)
    | inr e ↦ rw e (lookup-insert i k v m ∙ rw (same_comm k i, e) n, Unique-insert k v m u)
  ]

  -- The new entries win.
  pub lookup-merge :
      (j : Text) (m news : List (Text × V))
      → Unique news
      → lookup j (merge m news) ≡ first_of (lookup j news) (lookup j m)
  unfolding merge
  lookup-merge j m [] u = refl
  lookup-merge j m ((k, v) ∷ news) (n, u) =
      lookup-merge j (insert k v m) news u ∙ elim (Bool-cases (same k j)) [
        | inl e ↦
            let absent : lookup j news ≡ none =
              ap (λ x. lookup x news) (sym (same_sound k j e)) ∙ n in
            rw (absent, lookup-insert j k v m, e) refl
        | inr e ↦ rw (lookup-insert j k v m, e) refl
      ]
