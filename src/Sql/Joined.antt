-- ===== src/Sql/Joined.antt =====
-- Lists of parts: joined by a separator, and with the empty parts left out.
use vaultsql.Prelude.{
  Bool, true, false, List, [], ◌∷◌, ◌++◌, map, keep, ◌≡◌, refl, Text, join, truthy, All,
}
use vaultsql.Sql.Lexer.{Dialect, Token, tokens, emits, after, finish, words}
use vaultsql.Sql.Reads.{Reads, is_separator, Reads-then}

abbrev pub filled {ℓ} : {A : Type ℓ} → List A → Bool
filled [] = false
filled (x ∷ xs) = true

pub data ReadsAll (d : Dialect) : List Text → List (List Token) → Type 0 where
  none_left : ReadsAll d [] []
  one_more :
      {t : Text} {u : List Token} {ts : List Text} {us : List (List Token)}
      → Reads d t u
      → ReadsAll d ts us
      → ReadsAll d (t ∷ ts) (u ∷ us)

-- An optional part is an empty text, or is read as its tokens.
pub data ReadsPart (d : Dialect) : Text → List (List Token) → Type 0 where
  absent : ReadsPart d [] []
  present : {t : Text} {u : List Token} → truthy t ≡ true → Reads d t u → ReadsPart d t (u ∷ [])

module _ (d : Dialect) where
  pub ReadsAll-join :
      {ts : List Text} {us : List (List Token)} (sep : Text)
      → is_separator d sep ≡ true
      → ReadsAll d ts us
      → filled ts ≡ true
      → Reads d (join sep ts) (join (words sep) us)
  ReadsAll-join sep h none_left e = cc
  ReadsAll-join sep h (one_more r none_left) e = r
  ReadsAll-join sep h (one_more r (one_more s rest)) e =
      Reads-then d sep r h (ReadsAll-join sep h (one_more s rest) refl)

  pub ReadsAll-append :
      {ts us : List Text} {vs ws : List (List Token)}
      → ReadsAll d ts vs
      → ReadsAll d us ws
      → ReadsAll d (ts ++ us) (vs ++ ws)
  ReadsAll-append none_left s = s
  ReadsAll-append (one_more r rest) s = one_more r (ReadsAll-append rest s)

  -- A part that may be empty, in front of a list from which the empty ones are taken out.
  pub ReadsAll-part :
      {t : Text} {o us : List (List Token)} (ts : List Text)
      → ReadsPart d t o
      → ReadsAll d (keep truthy ts) us
      → ReadsAll d (keep truthy (t ∷ ts)) (o ++ us)
  ReadsAll-part ts absent rest = rest
  ReadsAll-part ts (present {t} {u} h r) rest = rw h (one_more r rest)

  pub ReadsAll-last_part :
      {t : Text} {o : List (List Token)} → ReadsPart d t o → ReadsAll d (keep truthy (t ∷ [])) o
  ReadsAll-last_part absent = none_left
  ReadsAll-last_part (present {t} {u} h r) = rw h (one_more r none_left)

module _ (d : Dialect) {A : Type 0} (P : A → Type 0) (f : A → Text) (g : A → List Token) where
  pub ReadsAll-map :
      ((a : A) → P a → Reads d (f a) (g a))
      → (xs : List A) → All P xs
      → ReadsAll d (map f xs) (map g xs)
  ReadsAll-map h [] _ = none_left
  ReadsAll-map h (x ∷ xs) (p, ps) = one_more (h x p) (ReadsAll-map h xs ps)

-- A text that holds a token is not empty.
pub truthy_of_Reads :
    (d : Dialect) (t : Text) {k : Token} {ks : List Token} → Reads d t (k ∷ ks) → truthy t ≡ true
unfolding tokens emits after finish
truthy_of_Reads d [] r = cc (r.emitted)
truthy_of_Reads d (c ∷ t) r = refl
