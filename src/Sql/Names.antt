-- ===== src/Sql/Names.antt =====
-- The quoted texts that a statement holds, in order. In a schema change they are the names.
use vaultsql.Prelude.{
  Bool, true, false, arith, List, [], ◌∷◌, ◌++◌, map, append-nil, ◌≡◌, refl, ap, Text, codes, join,
  if◌then◌else◌,
}
use vaultsql.Sql.Lexer.{Dialect, Token, char, quoted, broken, words, tokens}
use vaultsql.Sql.Reads.{Reads}
use vaultsql.Sql.Quoter.{Quoter, IsLexed}
use vaultsql.Sql.Clauses.{table_name}
use vaultsql.Sql.Phrases.{unmarked, is_phrase, Reads-phrase, Reads-after, Reads-between}

unfoldable pub names_of : List Token → List Text
names_of [] = []
names_of (char c ∷ ts) = names_of ts
names_of (quoted q s ∷ ts) = s ∷ names_of ts
names_of (broken ∷ ts) = names_of ts

-- No quote is left open at the end.
unfoldable pub is_whole : List Token → Bool
is_whole [] = true
is_whole (char c ∷ ts) = is_whole ts
is_whole (quoted q s ∷ ts) = is_whole ts
is_whole (broken ∷ ts) = false

names_of-append : (ts us : List Token) → names_of (ts ++ us) ≡ names_of ts ++ names_of us
unfolding names_of
names_of-append [] us = refl
names_of-append (char c ∷ ts) us = names_of-append ts us
names_of-append (quoted q s ∷ ts) us = ap (λ ns. s ∷ ns) (names_of-append ts us)
names_of-append (broken ∷ ts) us = names_of-append ts us

names_of-words : (w : Text) → names_of (words w) ≡ []
unfolding names_of
names_of-words [] = refl
names_of-words (c ∷ w) = names_of-words w

is_whole-append :
    (ts us : List Token) → is_whole ts ≡ true → is_whole us ≡ true → is_whole (ts ++ us) ≡ true
unfolding is_whole
is_whole-append [] us h k = k
is_whole-append (char c ∷ ts) us h k = is_whole-append ts us h k
is_whole-append (quoted q s ∷ ts) us h k = is_whole-append ts us h k
is_whole-append (broken ∷ ts) us h k = h

is_whole-words : (w : Text) → is_whole (words w) ≡ true
unfolding is_whole
is_whole-words [] = refl
is_whole-words (c ∷ w) = is_whole-words w

-- The statement is read with these names, and leaves no quote open.
pub record HoldsNames (d : Dialect) (t : Text) (ns : List Text) : Type 0 where
  pub named : names_of (tokens d t) ≡ ns
  pub whole : is_whole (tokens d t) ≡ true

pub record Names (d : Dialect) (t : Text) (ns : List Text) : Type 0 where
  pub read : List Token
  pub reads : Reads d t read
  pub named : names_of read ≡ ns
  pub whole : is_whole read ≡ true

pub HoldsNames-of_Names :
    {d : Dialect} {t : Text} {ns : List Text} → Names d t ns → HoldsNames d t ns
HoldsNames-of_Names n = record {
  named = rw (n.reads.emitted) n.named;
  whole = rw (n.reads.emitted) n.whole;
}

module _ {d : Dialect} {q : Quoter} (l : IsLexed d q) where
  pub Names-phrase : (w : Text) → unmarked w ≡ true → Names d w []
  Names-phrase w h = record {
    read = words w;
    reads = Reads-phrase l w h;
    named = names_of-words w;
    whole = is_whole-words w;
  }

  pub Names-name : (s : Text) → Names d (q.quote_identifier s) (s ∷ [])
  unfolding names_of is_whole
  Names-name s = record {
    read = quoted l.name_mark s ∷ [];
    reads = l.reads_name s;
    named = refl;
    whole = refl;
  }

  pub Names-after :
      {b : Text} {ns : List Text} (w : Text)
      → unmarked w ≡ true
      → Names d b ns
      → Names d (w ++ b) ns
  Names-after w h n = record {
    read = words w ++ n.read;
    reads = Reads-after l w h n.reads;
    named = rw (names_of-append (words w) n.read, names_of-words w) n.named;
    whole = is_whole-append (words w) n.read (is_whole-words w) n.whole;
  }

  pub Names-between :
      {a b : Text} {ns ms : List Text}
      → Names d a ns
      → (w : Text) → is_phrase w ≡ true
      → Names d b ms
      → Names d (a ++ (w ++ b)) (ns ++ ms)
  Names-between {ns} {ms} n w h m = record {
    read = n.read ++ (words w ++ m.read);
    reads = Reads-between l n.reads w h m.reads;
    named = rw (
      names_of-append n.read (words w ++ m.read),
      names_of-append (words w) m.read,
      names_of-words w,
      n.named,
      m.named,
    );
    whole =
        is_whole-append n.read (words w ++ m.read) n.whole
          (is_whole-append (words w) m.read (is_whole-words w) m.whole);
  }

  pub Names-last : {a : Text} {ns : List Text} → Names d a ns → Names d (a ++ []) ns
  Names-last {a} n = rw (append-nil a) n

  -- Unquoted text at the end, which may be empty.
  pub Names-end :
      {a : Text} {ns : List Text}
      → Names d a ns
      → (w : Text) → unmarked w ≡ true
      → Names d (a ++ w) ns
  Names-end n [] h = Names-last n
  Names-end {a} {ns} n (c ∷ w) h =
      rw (← append-nil (c ∷ w), ← append-nil ns)
        (Names-between n (c ∷ w) (phrase_of h) (Names-phrase [] refl))
    where
      phrase_of : unmarked (c ∷ w) ≡ true → is_phrase (c ∷ w) ≡ true
      phrase_of h = ground (arith, h)

  pub Names-list : (ss : List Text) → Names d (join (codes ", ") (map q.quote_identifier ss)) ss
  Names-list [] = Names-phrase [] refl
  Names-list (s ∷ []) = Names-name s
  Names-list (s ∷ t ∷ ss) = Names-between (Names-name s) (codes ", ") refl (Names-list (t ∷ ss))

  pub Names-table :
      (schema table : Text) → Names d (table_name q schema table) (schema ∷ table ∷ [])
  Names-table schema table =
      Names-between (Names-name schema) (codes ".") refl (Names-last (Names-name table))

  -- An optional clause in front of the phrase between two parts.
  pub Names-across :
      {a b : Text} {ns ms : List Text}
      → Names d a ns
      → (u : Text) → unmarked u ≡ true
      → (w : Text) → is_phrase w ≡ true
      → Names d b ms
      → Names d (a ++ (u ++ (w ++ b))) (ns ++ ms)
  Names-across n [] h w k m = Names-between n w k m
  Names-across n (c ∷ u) h w k m =
      Names-between n (c ∷ u) (ground arith) (Names-after w (ground arith) m)

  -- A clause that a flag switches, in front of a part or at the end.
  pub Names-flag :
      {b : Text} {ns : List Text} (on : Bool) (w : Text)
      → unmarked w ≡ true
      → Names d b ns
      → Names d ((if on then w else []) ++ b) ns
  Names-flag true w h n = Names-after w h n
  Names-flag false w h n = n

  pub Names-end_flag :
      {a : Text} {ns : List Text}
      → Names d a ns
      → (on : Bool) (w : Text) → unmarked w ≡ true
      → Names d (a ++ ((if on then w else []) ++ [])) ns
  Names-end_flag n true w h = rw (append-nil w) (Names-end n w h)
  Names-end_flag n false w h = Names-last n
