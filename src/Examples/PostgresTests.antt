-- ===== src/Examples/PostgresTests.antt =====
-- What PostgreSQL reads in concrete statements.
use vaultsql.Prelude.{◌++◌, ◌≡◌, ◌↔◌, refl, true, false, codes, has}
use vaultsql.Sql.Lexer.{words, tokens}
use vaultsql.Sql.Quoter.{value_token, quote_mark}
use vaultsql.Sql.QueryTokens.{query_tokens, count_tokens}
use vaultsql.Sql.RowTokens.{insert_tokens, update_tokens, delete_tokens}
use vaultsql.Postgres.Quote.{postgres}
use vaultsql.Postgres.Query.{build_filter_condition, build_table_query}
use vaultsql.Postgres.QueryReads.{name, filter_tokens, tokens-build_table_query}
use vaultsql.Postgres.Rows.{
  build_insert_query, build_update_query, build_delete_query, tokens-build_insert_query,
  tokens-build_update_query, tokens-build_delete_query,
}
use vaultsql.Postgres.Ddl.{
  build_drop_table_query, build_truncate_table_query, build_drop_index_query,
  build_rename_table_query, build_drop_column_query, build_rename_column_query,
  build_drop_foreign_key_query,
}
use vaultsql.Postgres.DdlReads.{
  drop_table_tokens, truncate_tokens, drop_index_tokens, drop_column_tokens, drop_constraint_tokens,
  rename_table_tokens, rename_column_tokens, tokens-changes,
}
use vaultsql.Database.Ddl.{DropTableParams, TruncateTableParams}
use vaultsql.Postgres.Patterns.{prefix_filter, starts_with_pattern_iff}
use vaultsql.Examples.Data.{
  schema_name, table_text, params, inserted, updated, deleted, renamed, column_dropped,
  column_renamed, key_dropped, index_dropped,
}

tokens-build_table_query_example :
    (tokens postgres (build_table_query params).sql ≡ query_tokens name filter_tokens params)
    × (tokens postgres (build_table_query params).count_sql
        ≡ count_tokens name filter_tokens params)
tokens-build_table_query_example = tokens-build_table_query params refl

tokens-build_insert_query_example :
    tokens postgres (build_insert_query inserted).sql ≡ insert_tokens name inserted
tokens-build_insert_query_example = tokens-build_insert_query inserted (tt, (refl, (refl, tt)))

tokens-build_update_query_example :
    tokens postgres (build_update_query updated).sql ≡ update_tokens name updated
tokens-build_update_query_example = tokens-build_update_query updated (tt, (refl, (refl, tt))) refl

tokens-build_delete_query_example :
    tokens postgres (build_delete_query deleted).sql ≡ delete_tokens name deleted
tokens-build_delete_query_example = tokens-build_delete_query deleted refl

abbrev users_dropped : DropTableParams
users_dropped = record {
  schema = schema_name;
  table = table_text;
  if_exists = true;
  cascade = true;
}

abbrev users_truncated : TruncateTableParams
users_truncated = record {
  schema = schema_name;
  table = table_text;
  cascade = false;
  restart_identity = true;
}

tokens-changes_example :
    (tokens postgres (build_drop_table_query users_dropped).sql ≡ drop_table_tokens users_dropped)
    × (tokens postgres (build_truncate_table_query users_truncated).sql
        ≡ truncate_tokens users_truncated)
    × (tokens postgres (build_drop_index_query index_dropped).sql ≡ drop_index_tokens index_dropped)
    × (tokens postgres (build_drop_column_query column_dropped).sql
        ≡ drop_column_tokens column_dropped)
    × (tokens postgres (build_drop_foreign_key_query key_dropped).sql
        ≡ drop_constraint_tokens key_dropped)
    × (tokens postgres (build_rename_table_query renamed).sql ≡ rename_table_tokens renamed)
    × (tokens postgres (build_rename_column_query column_renamed).sql
        ≡ rename_column_tokens column_renamed)
tokens-changes_example =
    tokens-changes users_dropped users_truncated index_dropped column_dropped key_dropped renamed
      column_renamed

-- A value with a quotation mark is not searched for as typed.
starts_with_pattern_iff_example :
    (tokens postgres (build_filter_condition (prefix_filter (codes "name") (codes "O'B")))
      ≡ name (codes "name") ++ (words (codes " LIKE ") ++ value_token (codes "O'B" ++ codes "%")))
    ↔ (has quote_mark (codes "O'B") ≡ false)
starts_with_pattern_iff_example = starts_with_pattern_iff (codes "name") (codes "O'B")
