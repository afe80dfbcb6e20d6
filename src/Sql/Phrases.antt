-- ===== src/Sql/Phrases.antt =====
-- The rules of `Reads` for a dialect behind its interface, with the keywords between the quoted
-- texts checked by evaluation.
use vaultsql.Prelude.{
  ℕ, Bool, true, not, ◌&&◌, ◌||◌, List, [], ◌∷◌, ◌++◌, map, append-nil, ◌≡◌, refl, arith, Text,
  codes, join, truthy, All, decimal, decimal-IsDigit, IsDigit, ◌==◌,
}
use vaultsql.Sql.Lexer.{Dialect, Token, words, plain}
use vaultsql.Sql.Reads.{Reads, is_separator, Reads-words, Reads-prefix, Reads-then}
use vaultsql.Sql.Quoter.{Quoter, IsLexed, name_token}
use vaultsql.Sql.Joined.{ReadsAll, ReadsAll-join, ReadsAll-map, filled}

-- None of the three quoting marks stands in the text.
abbrev pub unmarked : Text → Bool
unmarked [] = true
unmarked (c ∷ t) = not (c == b'\'' || c == b'"' || c == b'`') && unmarked t

pub unmarked-append :
    (s t : Text) → unmarked s ≡ true → unmarked t ≡ true → unmarked (s ++ t) ≡ true
unmarked-append [] t h k = k
unmarked-append (c ∷ s) t h k = ground (arith, unmarked-append s t)

unmarked_of_digits : (t : Text) → All IsDigit t → unmarked t ≡ true
unmarked_of_digits [] h = refl
unmarked_of_digits (c ∷ t) (h, hs) = ground (arith, unmarked_of_digits t hs)

pub trivial {ℓ} : {A : Type ℓ} (xs : List A) → All (λ _. Unit {0}) xs
trivial [] = tt
trivial (x ∷ xs) = (tt, trivial xs)

pub unmarked-decimal : (w : Text) (n : ℕ) → unmarked w ≡ true → unmarked (w ++ decimal n) ≡ true
unmarked-decimal w n h =
    unmarked-append w (decimal n) h (unmarked_of_digits (decimal n) (decimal-IsDigit n))

abbrev pub is_phrase : Text → Bool
is_phrase w = unmarked w && truthy w

module _ {d : Dialect} {q : Quoter} (l : IsLexed d q) where
  plain_of_unmarked : (w : Text) → unmarked w ≡ true → plain d w ≡ true
  plain_of_unmarked [] h = refl
  plain_of_unmarked (c ∷ w) h = ground (arith, l.no_other_quote c, plain_of_unmarked w)

  is_separator_of_phrase : (w : Text) → is_phrase w ≡ true → is_separator d w ≡ true
  is_separator_of_phrase w h = ground (arith, plain_of_unmarked w)

  pub Reads-nil : Reads d [] []
  Reads-nil = Reads-words d [] refl

  pub Reads-phrase : (w : Text) → unmarked w ≡ true → Reads d w (words w)
  Reads-phrase w h = Reads-words d w (plain_of_unmarked w h)

  pub Reads-after :
      {b : Text} {us : List Token} (w : Text)
      → unmarked w ≡ true
      → Reads d b us
      → Reads d (w ++ b) (words w ++ us)
  Reads-after w h = Reads-prefix d w (plain_of_unmarked w h)

  pub Reads-between :
      {a b : Text} {ts us : List Token}
      → Reads d a ts
      → (w : Text) → is_phrase w ≡ true
      → Reads d b us
      → Reads d (a ++ (w ++ b)) (ts ++ (words w ++ us))
  Reads-between r w h s = Reads-then d w r (is_separator_of_phrase w h) s

  pub Reads-before :
      {a : Text} {ts : List Token}
      → Reads d a ts
      → (w : Text) → is_phrase w ≡ true
      → Reads d (a ++ (w ++ [])) (ts ++ (words w ++ []))
  Reads-before r w h = Reads-between r w h Reads-nil

  pub Reads-last : {a : Text} {ts : List Token} → Reads d a ts → Reads d (a ++ []) ts
  Reads-last {a} r = rw (append-nil a) r

  pub Reads-join :
      {ts : List Text} {us : List (List Token)} (sep : Text)
      → is_phrase sep ≡ true
      → ReadsAll d ts us
      → filled ts ≡ true
      → Reads d (join sep ts) (join (words sep) us)
  Reads-join sep h = ReadsAll-join d sep (is_separator_of_phrase sep h)

  -- A comma list of names, which has at least one.
  pub Reads-names :
      (s : Text) (ss : List Text)
      → Reads d
          (join (codes ", ") (map q.quote_identifier (s ∷ ss)))
          (join (words (codes ", ")) (map (name_token l) (s ∷ ss)))
  Reads-names s ss =
      Reads-join (codes ", ") refl
        (ReadsAll-map d (λ _. Unit {0}) q.quote_identifier (name_token l) (λ a _. l.reads_name a)
          (s ∷ ss) (trivial (s ∷ ss)))
        refl
