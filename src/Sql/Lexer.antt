-- ===== src/Sql/Lexer.antt =====
-- A statement as the server's lexer sees it: characters outside quotes one by one, and each quoted
-- name or string as the text that it stands for. This describes SQL, not the program: the builders
-- of frontend/src/workbench/lib/databases are measured against it.
use vaultsql.Prelude.{
  ℕ, Bool, true, false, List, [], ◌∷◌, ◌++◌, ◌≡◌, refl, arith, Text, ◌==◌, not, ◌&&◌, ◌||◌,
  if◌then◌else◌, append_assoc,
}

-- Which characters open a quoted text, and in which of those a backslash escapes.
pub record Dialect : Type 0 where
  pub is_quote : ℕ → Bool
  pub escapes : ℕ → Bool

pub data Token : Type 0 where
  char : ℕ → Token
  quoted : ℕ → Text → Token
  broken : Token

-- `closing` has seen a quote that ends the text, unless the same quote follows.
pub data Mode : Type 0 where
  out : Mode
  inside : ℕ → Text → Mode
  escaped : ℕ → Text → Mode
  closing : ℕ → Text → Mode
  stuck : Mode

abbrev pub backslash : ℕ
backslash = b'\\'

module _ (d : Dialect) where
  step : Mode → ℕ → Mode
  step out c = if d.is_quote c then inside c [] else out
  step (inside q acc) c =
      if c == q
      then closing q acc
      else if d.escapes q && c == backslash
      then escaped q acc
      else inside q (acc ++ c ∷ [])
  step (escaped q acc) c =
      if c == backslash || d.is_quote c then inside q (acc ++ c ∷ []) else stuck
  step (closing q acc) c =
      if c == q then inside q (acc ++ c ∷ []) else if d.is_quote c then inside c [] else out
  step stuck c = stuck

  -- What is known when a character has been read.
  emit : Mode → ℕ → List Token
  emit out c = if d.is_quote c then [] else char c ∷ []
  emit (closing q acc) c =
      if c == q then [] else quoted q acc ∷ (if d.is_quote c then [] else char c ∷ [])
  emit _ c = []

  unfoldable pub after : Mode → Text → Mode
  unfolding step
  after m [] = m
  after m (c ∷ t) = after (step m c) t

  unfoldable pub emits : Mode → Text → List Token
  unfolding step emit
  emits m [] = []
  emits m (c ∷ t) = emit m c ++ emits (step m c) t

-- What the end of the statement adds.
unfoldable pub finish : Mode → List Token
finish out = []
finish (closing q acc) = quoted q acc ∷ []
finish _ = broken ∷ []

-- The tokens of a statement.
unfoldable pub tokens : Dialect → Text → List Token
unfolding after emits finish
tokens d t = emits d out t ++ finish (after d out t)

-- Unquoted text, character by character.
abbrev pub words : Text → List Token
words [] = []
words (c ∷ t) = char c ∷ words t

-- No quote stands in the text.
abbrev pub plain : Dialect → Text → Bool
plain d [] = true
plain d (c ∷ t) = not (d.is_quote c) && plain d t

module _ (d : Dialect) where
  pub after-append : (m : Mode) (s t : Text) → after d m (s ++ t) ≡ after d (after d m s) t
  unfolding after
  after-append m [] t = refl
  after-append m (c ∷ s) t = after-append (step d m c) s t

  pub emits-append :
      (m : Mode) (s t : Text) → emits d m (s ++ t) ≡ emits d m s ++ emits d (after d m s) t
  unfolding emits after
  emits-append m [] t = refl
  emits-append m (c ∷ s) t = rw (emits-append (step d m c) s t, append_assoc)

  -- Unquoted text is passed through.
  pub after-plain : (t : Text) → plain d t ≡ true → after d out t ≡ out
  unfolding after
  after-plain [] h = refl
  after-plain (c ∷ t) h = ground (arith, after-plain t)

  pub emits-plain : (t : Text) → plain d t ≡ true → emits d out t ≡ words t
  unfolding emits
  emits-plain [] h = refl
  emits-plain (c ∷ t) h = ground (arith, emits-plain t)

  -- After a quoted text an unquoted character ends it.
  pub after-closing :
      (q : ℕ) (acc : Text) (c : ℕ)
      → d.is_quote q ≡ true
      → d.is_quote c ≡ false
      → (t : Text) → after d (closing q acc) (c ∷ t) ≡ after d out t
  unfolding after
  after-closing q acc c hq hc t = ground arith

  pub emits-closing :
      (q : ℕ) (acc : Text) (c : ℕ)
      → d.is_quote q ≡ true
      → d.is_quote c ≡ false
      → (t : Text) → emits d (closing q acc) (c ∷ t) ≡ quoted q acc ∷ char c ∷ emits d out t
  unfolding emits
  emits-closing q acc c hq hc t = ground arith
