-- ===== src/Queue/Statements.antt =====
-- The queue of frontend/src/workbench/lib/mutations with the builders of
-- frontend/src/workbench/lib/databases/postgres: what the server reads in each queued change.
use vaultsql.Prelude.{
  List, [], ◌∷◌, Option, none, some, Option-cases, inl, inr, ◌≡◌, refl, Text, All,
}
use vaultsql.Sql.Lexer.{tokens}
use vaultsql.Sql.RowTokens.{IsPrinted, IsPrintedColumn, insert_tokens, update_tokens, delete_tokens}
use vaultsql.Postgres.Quote.{postgres}
use vaultsql.Postgres.QueryReads.{name}
use vaultsql.Postgres.DdlReads.{drop_column_tokens, tokens-build_drop_column_query}
use vaultsql.Postgres.Rows.{
  build_insert_query, build_update_query, build_delete_query, tokens-build_insert_query,
  tokens-build_update_query, tokens-build_delete_query,
}
use vaultsql.Postgres.Ddl.{build_add_column_query, build_drop_column_query}
use vaultsql.Queue.Entries.{
  Payload, insert_row, update_row, delete_row, add_column, drop_column, MutationEntry,
  HydratedMutation, Builders, parse_target, hydrate_payload, hydrate_mutation,
  hydrate_all_mutations,
}

abbrev pub builders : Builders
builders = record {
  build_insert_query = build_insert_query;
  build_update_query = build_update_query;
  build_delete_query = build_delete_query;
  build_add_column_query = build_add_column_query;
  build_drop_column_query = build_drop_column_query;
}

-- A change without raw SQL: not a new column, whose type and default are raw. Its numbers print
-- without quotation marks.
abbrev pub IsStructured : Payload → Type 0
IsStructured (insert_row values) = All IsPrintedColumn values
IsStructured (update_row values primary_key) =
    All IsPrintedColumn values × IsPrinted primary_key.value
IsStructured (delete_row primary_key) = IsPrinted primary_key.value
IsStructured (add_column column) = ⊥
IsStructured (drop_column column cascade) = Unit

-- What the statement for a change of this table must be read as.
abbrev pub IsStatement : Text → Text → Payload → Text → Type 0
IsStatement schema table (insert_row values) sql =
    tokens postgres sql
    ≡ insert_tokens name (record { schema = schema; table = table; values = values })
IsStatement schema table (update_row values primary_key) sql =
    tokens postgres sql
    ≡ update_tokens name
        (record { schema = schema; table = table; values = values; primary_key = primary_key })
IsStatement schema table (delete_row primary_key) sql =
    tokens postgres sql
    ≡ delete_tokens name (record { schema = schema; table = table; primary_key = primary_key })
IsStatement schema table (add_column column) sql = ⊥
IsStatement schema table (drop_column column cascade) sql =
    tokens postgres sql
    ≡ drop_column_tokens
        (record { schema = schema; table = table; column = column; cascade = cascade })

-- The statement hydrated from an entry, for the table of its target.
pub record Hydrated (e : MutationEntry) (m : HydratedMutation) : Type 0 where
  pub schema : Text
  pub table : Text
  pub aimed : parse_target e.target ≡ some (schema, table)
  pub origin : m.entry ≡ e
  pub meant : IsStatement schema table e.payload m.sql

-- One statement for each entry, in the same order.
abbrev pub AllHydrated : List MutationEntry → List HydratedMutation → Type 0
AllHydrated [] [] = Unit
AllHydrated (e ∷ es) (m ∷ ms) = Hydrated e m × AllHydrated es ms
AllHydrated _ _ = ⊥

IsStatement-hydrate_payload :
    (e : MutationEntry) (schema table : Text) (payload : Payload)
    → IsStructured payload
    → let m = hydrate_payload builders e schema table payload in
      IsStatement schema table payload m.sql × (m.entry ≡ e)
unfolding hydrate_payload
IsStatement-hydrate_payload e schema table (insert_row values) h =
    (tokens-build_insert_query _ h, refl)
IsStatement-hydrate_payload e schema table (update_row values primary_key) (h, k) =
    (tokens-build_update_query _ h k, refl)
IsStatement-hydrate_payload e schema table (delete_row primary_key) h =
    (tokens-build_delete_query _ h, refl)
IsStatement-hydrate_payload e schema table (add_column column) h = elim h [ ]
IsStatement-hydrate_payload e schema table (drop_column column cascade) h =
    (tokens-build_drop_column_query _, refl)

clash {ℓ} : {A : Type ℓ} {a : A} (o : Option A) → o ≡ none → o ≡ some a → ⊥
clash o lost found = cc

same_found {ℓ} : {A : Type ℓ} {a b : A} (o : Option A) → o ≡ some a → o ≡ some b → b ≡ a
same_found o p q = cc

hydrate_mutation-none :
    (e : MutationEntry) → parse_target e.target ≡ none → hydrate_mutation builders e ≡ none
unfolding hydrate_mutation
hydrate_mutation-none e lost = rw (lost, hydrate_mutation)

hydrate_mutation-some :
    (e : MutationEntry) (schema table : Text)
    → parse_target e.target ≡ some (schema, table)
    → hydrate_mutation builders e ≡ some (hydrate_payload builders e schema table e.payload)
unfolding hydrate_mutation
hydrate_mutation-some e schema table aimed = rw (aimed, hydrate_mutation)

Hydrated-hydrate_mutation :
    (e : MutationEntry) (m : HydratedMutation)
    → IsStructured e.payload
    → hydrate_mutation builders e ≡ some m
    → Hydrated e m
Hydrated-hydrate_mutation e m h found = elim (Option-cases (parse_target e.target)) [
  | inl lost ↦ elim (clash _ (hydrate_mutation-none e lost) found) [ ]
  | inr ((schema, table), aimed) ↦
      let (meant, origin) = IsStatement-hydrate_payload e schema table e.payload h in
      let made = same_found _ (hydrate_mutation-some e schema table aimed) found in
      rw made
        (record { schema = schema; table = table; aimed = aimed; origin = origin; meant = meant })
]

module _ (e : MutationEntry) (es : List MutationEntry) where
  hydrate_all_first :
      hydrate_mutation builders e ≡ none → hydrate_all_mutations builders (e ∷ es) ≡ none
  unfolding hydrate_all_mutations
  hydrate_all_first lost = rw (lost, hydrate_all_mutations)

  hydrate_all_later :
      (m : HydratedMutation)
      → hydrate_mutation builders e ≡ some m
      → hydrate_all_mutations builders es ≡ none
      → hydrate_all_mutations builders (e ∷ es) ≡ none
  unfolding hydrate_all_mutations
  hydrate_all_later m found lost = rw (found, lost, hydrate_all_mutations)

  hydrate_all_found :
      (m : HydratedMutation) (ms : List HydratedMutation)
      → hydrate_mutation builders e ≡ some m
      → hydrate_all_mutations builders es ≡ some ms
      → hydrate_all_mutations builders (e ∷ es) ≡ some (m ∷ ms)
  unfolding hydrate_all_mutations
  hydrate_all_found m ms first later = rw (first, later, hydrate_all_mutations)

hydrate_all_empty : hydrate_all_mutations builders [] ≡ some []
unfolding hydrate_all_mutations
hydrate_all_empty = refl

-- If a queue holds no new column, its numbers print without quotation marks, and it hydrates for
-- PostgreSQL, there is one statement for each entry, in the same order: PostgreSQL reads it as the
-- specified change of rows in the table of the entry's target, or, for a dropped column, as ALTER
-- TABLE of this table with DROP COLUMN of this column, and CASCADE exactly if it is asked for.
pub hydrate_all_mutations-AllHydrated :
    (entries : List MutationEntry) (ms : List HydratedMutation)
    → All (λ e. IsStructured e.payload) entries
    → hydrate_all_mutations builders entries ≡ some ms
    → AllHydrated entries ms
hydrate_all_mutations-AllHydrated [] ms h found = rw (same_found _ hydrate_all_empty found) tt
hydrate_all_mutations-AllHydrated (e ∷ es) ms (h, hs) found =
    elim (Option-cases (hydrate_mutation builders e)) [
      | inl lost ↦ elim (clash _ (hydrate_all_first e es lost) found) [ ]
      | inr (m, first) ↦ elim (Option-cases (hydrate_all_mutations builders es)) [
        | inl lost ↦ elim (clash _ (hydrate_all_later e es m first lost) found) [ ]
        | inr (rest, later) ↦
            let all = same_found _ (hydrate_all_found e es m rest first later) found in
            rw all (
              Hydrated-hydrate_mutation e m h first,
              hydrate_all_mutations-AllHydrated es rest hs later,
            )
      ]
    ]
