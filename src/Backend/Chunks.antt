-- ===== src/Backend/Chunks.antt =====
-- However the stream is cut into chunks, it is read as its lines.
use vaultsql.Prelude.{
  Bool, true, false, List, [], ◌∷◌, ◌++◌, append_assoc, append-nil, ◌≡◌, refl, ap, sym, ◌∙◌, Text,
  has, split, concat, if◌then◌else◌, Bool-cases, inl, inr,
}
use vaultsql.Backend.Stream.{
  Parsed, StreamState, start, failed, pop, read_line, read_lines, read_chunks, read_tail, close,
  read_stream,
}
use vaultsql.Backend.Lines.{split_from-append, has-pop, split-append}

module _ (parse : Text → Parsed) where
  if_same {ℓ} : {A : Type ℓ} (b : Bool) (x : A) → (if b then x else x) ≡ x
  if_same true x = refl
  if_same false x = refl

  read_lines-append :
      (xs ys : List Text) (s : StreamState)
      → failed s ≡ false
      → read_lines parse (xs ++ ys) s ≡ (
          if failed (read_lines parse xs s)
          then read_lines parse xs s
          else read_lines parse ys (read_lines parse xs s))
  unfolding read_lines
  read_lines-append [] ys s h = rw h refl
  read_lines-append (x ∷ xs) ys s h = elim (Bool-cases (failed (read_line parse x s))) [
    | inl e ↦ rw (e, e) refl
    | inr e ↦ rw e (read_lines-append xs ys (read_line parse x s) e)
  ]

  -- Text without a line end is one line.
  split-line : (t : Text) → has b'\n' t ≡ false → split b'\n' t ≡ t ∷ []
  split-line t h = ap (split b'\n') (sym (append-nil t)) ∙ split_from-append b'\n' t [] [] h

  read_chunks-lines :
      (chunks : List Text) (buffer : Text) (s : StreamState)
      → has b'\n' buffer ≡ false
      → failed s ≡ false
      → read_tail parse (read_chunks parse chunks buffer s)
        ≡ read_lines parse (split b'\n' (buffer ++ concat chunks)) s
  unfolding read_chunks read_tail read_lines
  read_chunks-lines [] buffer s h k =
      rw
        (
          append-nil buffer,
          split-line buffer h,
          k,
          if_same (failed (read_line parse buffer s)) (read_line parse buffer s),
        )
        refl
  read_chunks-lines (chunk ∷ chunks) buffer s h k =
      let parts = pop (split b'\n' (buffer ++ chunk)) in
      let s' = read_lines parse parts.0 s in
      let whole : split b'\n' (buffer ++ (chunk ++ concat chunks))
          ≡ parts.0 ++ split b'\n' (parts.1 ++ concat chunks) =
        ap (split b'\n') (sym (append_assoc buffer chunk (concat chunks)))
        ∙ split-append b'\n' (buffer ++ chunk) (concat chunks) in
      elim (Bool-cases (failed s')) [
        | inl e ↦
            rw (whole, read_lines-append parts.0 (split b'\n' (parts.1 ++ concat chunks)) s k, e, e)
              refl
        | inr e ↦
            rw (whole, read_lines-append parts.0 (split b'\n' (parts.1 ++ concat chunks)) s k, e)
              (read_chunks-lines chunks parts.1 s' (has-pop b'\n' (buffer ++ chunk) [] refl) e)
      ]

  -- A stream that arrives in chunks is read as the lines of its whole text, one by one up to the
  -- first that fails, and then closed: where the chunks are cut makes no difference.
  pub read_stream-lines :
      (chunks : List Text)
      → read_stream parse chunks ≡ close (read_lines parse (split b'\n' (concat chunks)) start)
  unfolding read_stream
  read_stream-lines chunks = ap close (read_chunks-lines chunks [] start refl refl)
