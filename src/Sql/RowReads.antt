-- ===== src/Sql/RowReads.antt =====
-- The row mutations are read as the tokens of the specification.
use vaultsql.Prelude.{
  Bool, true, false, List, [], ◌∷◌, map, refl, Text, codes, join, All, Bool-cases, inl, inr,
}
use vaultsql.Database.Mutations.{
  Value, null, undefined, string, number, boolean, other, PrimaryKeyValue, MutationColumnValue,
  InsertParams, UpdateParams, DeleteParams,
}
use vaultsql.Sql.Lexer.{Dialect, Token}
use vaultsql.Sql.Reads.{Reads}
use vaultsql.Sql.Quoter.{Quoter, IsLexed, name_token}
use vaultsql.Sql.Joined.{ReadsAll-map}
use vaultsql.Sql.Phrases.{
  Reads-nil, Reads-phrase, Reads-after, Reads-between, Reads-before, Reads-last, Reads-join,
}
use vaultsql.Sql.Rows.{
  format_mutation_value, written, column_of, value_of, build_insert_query, set_part, key_condition,
  build_update_query, build_delete_query,
}
use vaultsql.Sql.QueryTokens.{comma_list}
use vaultsql.Sql.ClauseReads.{Reads-table}
use vaultsql.Sql.RowTokens.{
  literal_tokens, IsPrinted, IsPrintedColumn, cell_tokens, key_tokens, assignment_tokens,
  insert_tokens, update_tokens, delete_tokens,
}

All-written :
    (values : List MutationColumnValue)
    → All IsPrintedColumn values
    → All IsPrintedColumn (written values)
All-written [] h = tt
All-written (col ∷ values) (h, hs) = elim (Bool-cases col.use_default) [
  | inl e ↦ rw e (All-written values hs)
  | inr e ↦ rw e (h, All-written values hs)
]

module _ {d : Dialect} {q : Quoter} (l : IsLexed d q) where
  Reads-literal :
      (v : Value) (is_null : Bool)
      → IsPrinted v
      → Reads d (format_mutation_value q v is_null) (literal_tokens v is_null)
  unfolding format_mutation_value
  Reads-literal v true h = Reads-phrase l (codes "NULL") refl
  Reads-literal null false h = Reads-phrase l (codes "NULL") refl
  Reads-literal undefined false h = Reads-phrase l (codes "NULL") refl
  Reads-literal (string s) false h = l.reads_value s
  Reads-literal (number s) false h = Reads-phrase l s h
  Reads-literal (boolean true) false h = Reads-phrase l (codes "TRUE") refl
  Reads-literal (boolean false) false h = Reads-phrase l (codes "FALSE") refl
  Reads-literal (other s) false h = l.reads_value s

  -- A comma list, which may be empty.
  Reads-cells :
      (f : MutationColumnValue → Text) (g : MutationColumnValue → List Token)
      → ((c : MutationColumnValue) → IsPrintedColumn c → Reads d (f c) (g c))
      → (cs : List MutationColumnValue) → All IsPrintedColumn cs
      → Reads d (join (codes ", ") (map f cs)) (comma_list g cs)
  Reads-cells f g r [] h = Reads-nil l
  Reads-cells f g r (c ∷ cs) h =
      Reads-join l (codes ", ") refl (ReadsAll-map d IsPrintedColumn f g r (c ∷ cs) h) refl

  Reads-key :
      (k : PrimaryKeyValue)
      → IsPrinted k.value
      → Reads d (key_condition q k) (key_tokens (name_token l) k)
  Reads-key k h =
      Reads-between l (l.reads_name k.column) (codes " = ") refl
        (Reads-last l (Reads-literal k.value false h))

  Reads-assignment :
      (c : MutationColumnValue)
      → IsPrintedColumn c
      → Reads d (set_part q c) (assignment_tokens (name_token l) c)
  Reads-assignment c h =
      Reads-between l (l.reads_name c.column) (codes " = ") refl
        (Reads-last l (Reads-literal c.value c.is_null h))

  pub Reads-insert :
      (p : InsertParams)
      → All IsPrintedColumn p.values
      → Reads d (build_insert_query q p).sql (insert_tokens (name_token l) p)
  unfolding build_insert_query
  Reads-insert p h =
      let cs = written p.values in
      Reads-after l (codes "INSERT INTO ") refl (
        Reads-between l (Reads-table l p.schema p.table) (codes " (") refl (
          Reads-between l
            (Reads-cells (column_of q) (λ c. name_token l c.column) (λ c _. l.reads_name c.column)
              cs (All-written p.values h))
            (codes ") VALUES (") refl
            (Reads-before l
              (Reads-cells (value_of q) cell_tokens (λ c k. Reads-literal c.value c.is_null k) cs
                (All-written p.values h))
              (codes ")") refl)))

  pub Reads-update :
      (p : UpdateParams)
      → All IsPrintedColumn p.values
      → IsPrinted p.primary_key.value
      → Reads d (build_update_query q p).sql (update_tokens (name_token l) p)
  unfolding build_update_query
  Reads-update p h k = Reads-after l (codes "UPDATE ") refl (
      Reads-between l (Reads-table l p.schema p.table) (codes " SET ") refl (
        Reads-between l
          (Reads-cells (set_part q) (assignment_tokens (name_token l)) Reads-assignment
            (written p.values) (All-written p.values h))
          (codes " WHERE ") refl (Reads-last l (Reads-key p.primary_key k))))

  pub Reads-delete :
      (p : DeleteParams)
      → IsPrinted p.primary_key.value
      → Reads d (build_delete_query q p).sql (delete_tokens (name_token l) p)
  unfolding build_delete_query
  Reads-delete p k = Reads-after l (codes "DELETE FROM ") refl (
      Reads-between l (Reads-table l p.schema p.table) (codes " WHERE ") refl
        (Reads-last l (Reads-key p.primary_key k)))
