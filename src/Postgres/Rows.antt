-- ===== src/Postgres/Rows.antt =====
-- frontend/src/workbench/lib/databases/postgres/mutations.ts, and what PostgreSQL reads in its
-- statements.
use vaultsql.Prelude.{◌≡◌, All}
use vaultsql.Database.Mutations.{InsertParams, UpdateParams, DeleteParams, MutationResult}
use vaultsql.Sql.Lexer.{tokens}
use vaultsql.Sql.Rows
use vaultsql.Sql.RowTokens.{IsPrinted, IsPrintedColumn, insert_tokens, update_tokens, delete_tokens}
use vaultsql.Sql.RowReads.{Reads-insert, Reads-update, Reads-delete}
use vaultsql.Postgres.Quote.{postgres, quoter, quoter-IsLexed}
use vaultsql.Postgres.QueryReads.{name}

unfoldable pub build_insert_query : InsertParams → MutationResult
build_insert_query = Rows.build_insert_query quoter

unfoldable pub build_update_query : UpdateParams → MutationResult
build_update_query = Rows.build_update_query quoter

unfoldable pub build_delete_query : DeleteParams → MutationResult
build_delete_query = Rows.build_delete_query quoter

-- If every number prints without a quotation mark, PostgreSQL reads an insert as the names of the
-- columns that do not use their default and, in the same order, their values: each name and each
-- string is one quoted text.
pub tokens-build_insert_query :
    (p : InsertParams)
    → All IsPrintedColumn p.values
    → tokens postgres (build_insert_query p).sql ≡ insert_tokens name p
unfolding build_insert_query
tokens-build_insert_query p h = (Reads-insert quoter-IsLexed p h).emitted

-- If every number prints without a quotation mark, PostgreSQL reads an update as an assignment for
-- each column that does not use its default, and the condition that the key has its value.
pub tokens-build_update_query :
    (p : UpdateParams)
    → All IsPrintedColumn p.values
    → IsPrinted p.primary_key.value
    → tokens postgres (build_update_query p).sql ≡ update_tokens name p
unfolding build_update_query
tokens-build_update_query p h k = (Reads-update quoter-IsLexed p h k).emitted

-- If a numeric key prints without a quotation mark, PostgreSQL reads a deletion as the table and the
-- condition that the key has its value, and nothing else.
pub tokens-build_delete_query :
    (p : DeleteParams)
    → IsPrinted p.primary_key.value
    → tokens postgres (build_delete_query p).sql ≡ delete_tokens name p
unfolding build_delete_query
tokens-build_delete_query p k = (Reads-delete quoter-IsLexed p k).emitted
