-- ===== src/Queue/Entries.antt =====
-- frontend/src/workbench/lib/mutations: types.ts, hydrate.ts and useMutationQueueStore.ts.
use vaultsql.Prelude.{
  ℕ, Bool, not, List, [], ◌∷◌, ◌++◌, Option, none, some, ◌⊎◌, inl, inr, Text, codes, concat, same,
  split, keep,
}
use vaultsql.Database.Mutations.{
  MutationColumnValue, PrimaryKeyValue, MutationOperation, MutationResult, InsertParams,
  UpdateParams, DeleteParams,
}
use vaultsql.Database.Ddl.{
  ColumnDefinition, DdlOperation, DdlResult, AddColumnParams, DropColumnParams,
}

-- The type of an entry is the constructor of its payload.
pub data Payload : Type 0 where
  insert_row : List MutationColumnValue → Payload
  update_row : List MutationColumnValue → PrimaryKeyValue → Payload
  delete_row : PrimaryKeyValue → Payload
  add_column : ColumnDefinition → Payload
  drop_column : Text → Bool → Payload

pub record MutationEntry : Type 0 where
  pub id : Text
  pub target : Text
  pub payload : Payload
  pub created_at : ℕ

pub record HydratedMutation : Type 0 where
  pub entry : MutationEntry
  pub sql : Text
  pub operation : MutationOperation ⊎ DdlOperation

-- The statement builders of the database service that hydration calls.
pub record Builders : Type 0 where
  pub build_insert_query : InsertParams → MutationResult
  pub build_update_query : UpdateParams → MutationResult
  pub build_delete_query : DeleteParams → MutationResult
  pub build_add_column_query : AddColumnParams → DdlResult
  pub build_drop_column_query : DropColumnParams → DdlResult

unfoldable pub create_target : Text → Text → Text
create_target schema table = concat (schema ∷ codes "." ∷ table ∷ [])

abbrev pub two_parts : List Text → Option (Text × Text)
two_parts (schema ∷ table ∷ []) = some (schema, table)
two_parts _ = none

-- `none` where the source throws.
unfoldable pub parse_target : Text → Option (Text × Text)
parse_target target = two_parts (split b'.' target)

-- The id and the time come from the runtime.
unfoldable pub create_mutation_entry : Text → ℕ → Text → Payload → MutationEntry
create_mutation_entry uuid now target payload = record {
  id = uuid;
  target = target;
  payload = payload;
  created_at = now;
}

module _ (db : Builders) where
  abbrev row_change : MutationEntry → MutationResult → HydratedMutation
  row_change entry r = record { entry = entry; sql = r.sql; operation = inl r.operation }

  abbrev column_change : MutationEntry → DdlResult → HydratedMutation
  column_change entry r = record { entry = entry; sql = r.sql; operation = inr r.operation }

  unfoldable pub hydrate_payload : MutationEntry → Text → Text → Payload → HydratedMutation
  hydrate_payload entry schema table (insert_row values) =
      row_change entry
        (db.build_insert_query (record { schema = schema; table = table; values = values }))
  hydrate_payload entry schema table (update_row values primary_key) = row_change entry (
      db.build_update_query
        (record { schema = schema; table = table; values = values; primary_key = primary_key }))
  hydrate_payload entry schema table (delete_row primary_key) =
      row_change entry (
        db.build_delete_query
          (record { schema = schema; table = table; primary_key = primary_key }))
  hydrate_payload entry schema table (add_column column) =
      column_change entry
        (db.build_add_column_query (record { schema = schema; table = table; column = column }))
  hydrate_payload entry schema table (drop_column column cascade) = column_change entry (
      db.build_drop_column_query
        (record { schema = schema; table = table; column = column; cascade = cascade }))

  -- `none` where the target is not a schema and a table.
  unfoldable pub hydrate_mutation : MutationEntry → Option HydratedMutation
  unfolding hydrate_payload
  hydrate_mutation entry = elim (parse_target entry.target) [
    | none ↦ none
    | some (schema, table) ↦ some (hydrate_payload entry schema table entry.payload)
  ]

  unfoldable pub hydrate_all_mutations : List MutationEntry → Option (List HydratedMutation)
  hydrate_all_mutations [] = some []
  hydrate_all_mutations (entry ∷ entries) = elim (hydrate_mutation entry) [
    | none ↦ none
    | some m ↦ elim (hydrate_all_mutations entries) [ none ↦ none | some ms ↦ some (m ∷ ms) ]
  ]

-- What the user can do to the queue.
pub data QueueAction : Type 0 where
  queue : MutationEntry → QueueAction
  remove : Text → QueueAction
  clear : QueueAction

unfoldable pub act : QueueAction → List MutationEntry → List MutationEntry
act (queue entry) entries = entries ++ entry ∷ []
act (remove entry_id) entries = keep (λ e. not (same e.id entry_id)) entries
act clear entries = []

unfoldable pub act_all : List QueueAction → List MutationEntry → List MutationEntry
unfolding act
act_all [] entries = entries
act_all (a ∷ actions) entries = act_all actions (act a entries)
