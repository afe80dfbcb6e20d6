-- ===== src/Sql/Doubling.antt =====
-- A quoted text in which each of its own marks is doubled is read back whole.
use vaultsql.Prelude.{
  ℕ, true, false, [], ◌∷◌, ◌++◌, ◌≡◌, refl, sym, ap, arith, Text, replace_all, append_assoc,
  append-nil,
}
use vaultsql.Sql.Lexer.{
  Dialect, inside, closing, out, quoted, after, emits, finish, tokens, after-append, emits-append,
}
use vaultsql.Sql.Reads.{Reads}

abbrev pub enclose : ℕ → Text → Text
enclose q body = q ∷ (body ++ (q ∷ []))

module _ (d : Dialect) (q : ℕ) where
  -- A body that the lexer takes in as `s`.
  pub record TakenAs (body s : Text) : Type 0 where
    pub taken : after d (inside q []) body ≡ inside q s
    pub silent : emits d (inside q []) body ≡ []

module _ (d : Dialect) (q : ℕ) (is_quote : d.is_quote q ≡ true) where
  after-open : (t : Text) → after d out (q ∷ t) ≡ after d (inside q []) t
  unfolding after
  after-open t = ground arith

  emits-open : (t : Text) → emits d out (q ∷ t) ≡ emits d (inside q []) t
  unfolding emits
  emits-open t = ground arith

  after-close : (s : Text) → after d (inside q s) (q ∷ []) ≡ closing q s
  unfolding after
  after-close s = ground arith

  emits-close : (s : Text) → emits d (inside q s) (q ∷ []) ≡ []
  unfolding emits
  emits-close s = refl

  after-enclose : {body s : Text} → TakenAs d q body s → after d out (enclose q body) ≡ closing q s
  after-enclose {body} {s} t =
      rw (after-open, after-append d (inside q []) body (q ∷ []), t.taken) (after-close s)

  emits-enclose : {body s : Text} → TakenAs d q body s → emits d out (enclose q body) ≡ []
  emits-enclose {body} {s} t =
      rw (emits-open, emits-append d (inside q []) body (q ∷ []), t.taken, t.silent) (emits-close s)

  pub Reads-enclose :
      {body s : Text} → TakenAs d q body s → Reads d (enclose q body) (quoted q s ∷ [])
  unfolding tokens finish
  Reads-enclose t = record {
    emitted = rw (emits-enclose t, after-enclose t) refl;
    settled = rw (after-enclose t) is_quote;
  }

module _ (d : Dialect) (q : ℕ) (no_escape : d.escapes q ≡ false) where
  after-doubled :
      (acc s : Text) → after d (inside q acc) (replace_all q (q ∷ q ∷ []) s) ≡ inside q (acc ++ s)
  unfolding after
  after-doubled acc [] = ap (inside q) (sym (append-nil acc))
  after-doubled acc (c ∷ s) =
      ground (arith, after-doubled (acc ++ c ∷ []) s, append_assoc acc (c ∷ []) s)

  emits-doubled : (acc s : Text) → emits d (inside q acc) (replace_all q (q ∷ q ∷ []) s) ≡ []
  unfolding emits
  emits-doubled acc [] = refl
  emits-doubled acc (c ∷ s) = ground (arith, emits-doubled (acc ++ c ∷ []) s)

  pub TakenAs-doubled : (s : Text) → TakenAs d q (replace_all q (q ∷ q ∷ []) s) s
  TakenAs-doubled s = record { taken = after-doubled [] s; silent = emits-doubled [] s }
