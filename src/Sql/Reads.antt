-- ===== src/Sql/Reads.antt =====
-- How the tokens of a statement follow from the tokens of its parts.
use vaultsql.Prelude.{
  Bool, true, List, [], ◌∷◌, ◌++◌, ◌≡◌, ap, ◌∙◌, arith, Text, truthy, ◌&&◌, append_assoc,
  append-nil,
}
use vaultsql.Sql.Lexer.{
  Dialect, Token, Mode, out, inside, escaped, closing, stuck, quoted, char, after, emits, finish,
  tokens, words, plain, after-append, emits-append, after-plain, emits-plain, after-closing,
  emits-closing,
}

-- Between tokens, or behind the closing quote of one.
abbrev pub IsSettled : Dialect → Mode → Type 0
IsSettled d out = Unit
IsSettled d (closing q acc) = d.is_quote q ≡ true
IsSettled d (inside q acc) = ⊥
IsSettled d (escaped q acc) = ⊥
IsSettled d stuck = ⊥

-- The text is read as these tokens, and leaves no quote open.
pub record Reads (d : Dialect) (t : Text) (ts : List Token) : Type 0 where
  pub emitted : tokens d t ≡ ts
  pub settled : IsSettled d (after d out t)

-- Unquoted text that keeps two quoted texts apart.
abbrev pub is_separator : Dialect → Text → Bool
is_separator d w = plain d w && truthy w

module _ (d : Dialect) where
  pub after-separator :
      (m : Mode) (w b : Text)
      → IsSettled d m
      → is_separator d w ≡ true
      → after d m (w ++ b) ≡ after d out b
  unfolding after
  after-separator m [] b s h = cc
  after-separator out (c ∷ w) b s h =
      after-append d out (c ∷ w) b ∙ ap (λ n. after d n b) (after-plain d (c ∷ w) (ground arith))
  after-separator (closing q acc) (c ∷ w) b s h =
      after-closing d q acc c s (ground arith) (w ++ b)
      ∙ after-append d out w b
      ∙ ap (λ n. after d n b) (after-plain d w (ground arith))
  after-separator (inside q acc) w b s h = absurd s
  after-separator (escaped q acc) w b s h = absurd s
  after-separator stuck w b s h = absurd s

  pub emits-plain_append :
      (w b : Text) → plain d w ≡ true → emits d out (w ++ b) ≡ words w ++ emits d out b
  emits-plain_append w b h = rw (emits-append, emits-plain d w h, after-plain d w h)

  pub emits-separator :
      (m : Mode) (w b : Text)
      → IsSettled d m
      → is_separator d w ≡ true
      → emits d m (w ++ b) ≡ finish m ++ (words w ++ emits d out b)
  unfolding finish
  emits-separator m [] b s h = cc
  emits-separator out (c ∷ w) b s h = emits-plain_append (c ∷ w) b (ground arith)
  emits-separator (closing q acc) (c ∷ w) b s h =
      emits-closing d q acc c s (ground arith) (w ++ b)
      ∙ ap (λ us. quoted q acc ∷ char c ∷ us) (emits-plain_append w b (ground arith))
  emits-separator (inside q acc) w b s h = absurd s
  emits-separator (escaped q acc) w b s h = absurd s
  emits-separator stuck w b s h = absurd s

  pub Reads-words : (w : Text) → plain d w ≡ true → Reads d w (words w)
  unfolding tokens finish
  Reads-words w h = record {
    emitted = rw (emits-plain d w h, after-plain d w h) (append-nil (words w));
    settled = rw (after-plain d w h) tt;
  }

  -- Unquoted text in front.
  pub Reads-prefix :
      {b : Text} {us : List Token} (w : Text)
      → plain d w ≡ true
      → Reads d b us
      → Reads d (w ++ b) (words w ++ us)
  unfolding tokens
  Reads-prefix {b} {us} w h r = record {
    emitted =
        rw (emits-plain_append w b h, after-append d out w b, after-plain d w h, append_assoc)
          (ap (λ (ts : List Token). words w ++ ts) r.emitted);
    settled = rw (after-append d out w b, after-plain d w h) r.settled;
  }

  -- Two parts with a separator between them.
  pub Reads-then :
      {a b : Text} {ts us : List Token} (w : Text)
      → Reads d a ts
      → is_separator d w ≡ true
      → Reads d b us
      → Reads d (a ++ (w ++ b)) (ts ++ (words w ++ us))
  unfolding tokens
  Reads-then {a} {b} {ts} {us} w r h s =
      let m = after d out a in
      record {
        emitted =
            rw
              (
                emits-append d out a (w ++ b),
                after-append d out a (w ++ b),
                emits-separator m w b r.settled h,
                after-separator m w b r.settled h,
                ← r.emitted,
                ← s.emitted,
              )
              (simp append_assoc);
        settled = rw (after-append d out a (w ++ b), after-separator m w b r.settled h) s.settled;
      }
