-- ===== src/Sql/Rows.antt =====
-- INSERT, UPDATE and DELETE of a row, which postgres/mutations.ts and mysql/mutations.ts (below
-- frontend/src/workbench/lib/databases) build by the same text, over the quoting of the dialect.
use vaultsql.Prelude.{
  Bool, true, false, not, List, [], ◌∷◌, map, keep, Text, codes, concat, join, if◌then◌else◌,
}
use vaultsql.Database.Mutations.{
  Value, null, undefined, string, number, boolean, other, MutationResult, insert, update, delete,
  PrimaryKeyValue, MutationColumnValue, InsertParams, UpdateParams, DeleteParams,
}
use vaultsql.Sql.Quoter.{Quoter}
use vaultsql.Sql.Clauses.{table_name}

-- The columns that the loops do not skip.
abbrev pub written : List MutationColumnValue → List MutationColumnValue
written values = keep (λ col. not col.use_default) values

module _ (q : Quoter) where
  open q use {quote_identifier, escape_value}

  unfoldable pub format_mutation_value : Value → Bool → Text
  format_mutation_value value true = codes "NULL"
  format_mutation_value null false = codes "NULL"
  format_mutation_value undefined false = codes "NULL"
  format_mutation_value (string s) false = escape_value s
  format_mutation_value (number s) false = s
  format_mutation_value (boolean b) false = if b then codes "TRUE" else codes "FALSE"
  format_mutation_value (other s) false = escape_value s

  abbrev pub column_of : MutationColumnValue → Text
  column_of col = quote_identifier col.column

  abbrev pub value_of : MutationColumnValue → Text
  value_of col = format_mutation_value col.value col.is_null

  unfoldable pub build_insert_query : InsertParams → MutationResult
  build_insert_query p = record {
    sql = concat (
        codes "INSERT INTO "
        ∷ table_name q p.schema p.table
        ∷ codes " ("
        ∷ join (codes ", ") (map column_of (written p.values))
        ∷ codes ") VALUES ("
        ∷ join (codes ", ") (map value_of (written p.values))
        ∷ codes ")"
        ∷ []);
    operation = insert;
    table = p.table;
    schema = p.schema;
  }

  abbrev pub set_part : MutationColumnValue → Text
  set_part col = concat (column_of col ∷ codes " = " ∷ value_of col ∷ [])

  abbrev pub key_condition : PrimaryKeyValue → Text
  key_condition k =
      concat (quote_identifier k.column ∷ codes " = " ∷ format_mutation_value k.value false ∷ [])

  unfoldable pub build_update_query : UpdateParams → MutationResult
  build_update_query p = record {
    sql = concat (
        codes "UPDATE "
        ∷ table_name q p.schema p.table
        ∷ codes " SET "
        ∷ join (codes ", ") (map set_part (written p.values))
        ∷ codes " WHERE "
        ∷ key_condition p.primary_key
        ∷ []);
    operation = update;
    table = p.table;
    schema = p.schema;
  }

  unfoldable pub build_delete_query : DeleteParams → MutationResult
  build_delete_query p = record {
    sql = concat (
        codes "DELETE FROM "
        ∷ table_name q p.schema p.table
        ∷ codes " WHERE "
        ∷ key_condition p.primary_key
        ∷ []);
    operation = delete;
    table = p.table;
    schema = p.schema;
  }
