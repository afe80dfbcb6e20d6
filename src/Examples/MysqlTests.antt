-- ===== src/Examples/MysqlTests.antt =====
-- What MySQL reads in concrete statements.
use vaultsql.Prelude.{◌≡◌, refl}
use vaultsql.Sql.Lexer.{tokens}
use vaultsql.Sql.QueryTokens.{query_tokens, count_tokens}
use vaultsql.Sql.RowTokens.{insert_tokens, update_tokens, delete_tokens}
use vaultsql.Mysql.Quote.{mysql}
use vaultsql.Mysql.Query.{build_table_query}
use vaultsql.Mysql.QueryReads.{name, filter_tokens, tokens-mysql-build_table_query}
use vaultsql.Mysql.Rows.{
  build_insert_query, build_update_query, build_delete_query, tokens-mysql-build_insert_query,
  tokens-mysql-build_update_query, tokens-mysql-build_delete_query,
}
use vaultsql.Mysql.Ddl.{build_drop_index_query}
use vaultsql.Mysql.DdlNames.{names_mysql-drop_index, IsIndexDropped}
use vaultsql.Examples.Data.{params, inserted, updated, deleted, index_dropped}

tokens-mysql-build_table_query_example :
    (tokens mysql (build_table_query params).sql ≡ query_tokens name filter_tokens params)
    × (tokens mysql (build_table_query params).count_sql ≡ count_tokens name filter_tokens params)
tokens-mysql-build_table_query_example = tokens-mysql-build_table_query params refl

tokens-mysql-build_insert_query_example :
    tokens mysql (build_insert_query inserted).sql ≡ insert_tokens name inserted
tokens-mysql-build_insert_query_example =
    tokens-mysql-build_insert_query inserted (tt, (refl, (refl, tt)))

tokens-mysql-build_update_query_example :
    tokens mysql (build_update_query updated).sql ≡ update_tokens name updated
tokens-mysql-build_update_query_example =
    tokens-mysql-build_update_query updated (tt, (refl, (refl, tt))) refl

tokens-mysql-build_delete_query_example :
    tokens mysql (build_delete_query deleted).sql ≡ delete_tokens name deleted
tokens-mysql-build_delete_query_example = tokens-mysql-build_delete_query deleted refl

names_mysql-drop_index_example : IsIndexDropped index_dropped (build_drop_index_query index_dropped)
names_mysql-drop_index_example = names_mysql-drop_index index_dropped
