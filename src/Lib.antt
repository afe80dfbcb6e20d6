-- ===== src/Lib.antt =====
-- Verification of the SQL workbench of the web client (frontend/src/workbench).
--
-- The workbench shows the tables of a user's PostgreSQL or MySQL database in tabs, builds SQL from
-- what the user filters, sorts and edits, and queues the changes until they are committed. Its parts
-- and the files that model them:
--
-- - Database (types/database.ts): the parameters and results that the parts exchange, the column
--   categories and the filter operators. Optional flags that the code only tests for truth are Bool.
-- - Sql: what both dialects share. Sql/Clauses, Sql/Rows and Sql/Columns are the parts of
--   lib/databases/{postgres,mysql}/{queryBuilder,mutations,ddl}.ts that have the same text in both
--   folders; each takes the dialect's quoting (a Quoter, Sql/Quoter) as a parameter. Sql/Lexer says how
--   a server cuts a statement into quoted texts and other characters; it describes SQL and not the
--   program, and Sql/QueryTokens and Sql/RowTokens say with it what each statement has to mean.
--   Sql/Reads, Doubling, Joined, Phrases, ClauseReads, QueryReads, RowReads, Names, ColumnNames and
--   Growth hold the lemmas, over every dialect whose quoting is lexed back (IsLexed).
-- - Postgres and Mysql (lib/databases/postgres and lib/databases/mysql): sqlUtils.ts is in Quote,
--   queryBuilder.ts in Query, mutations.ts in Rows, ddl.ts in Ddl. A builder keeps its name in snake
--   case: buildTableQuery is build_table_query. QueryReads, DdlNames, DdlReads and Patterns hold
--   theorems.
-- - Tabs: tabs/useTabsStore.ts in Store, one function for each action, and the functions of
--   tabs/controllers that open tabs in Open. Reachable has the steps that the user can take.
-- - Queue (lib/mutations): types.ts, hydrate.ts and useMutationQueueStore.ts in Entries,
--   useMutationQueue.ts in Commit. Hydration calls the builders through the record Builders, which the
--   builders of Postgres and Mysql fill. The answers of the database are a parameter, each with what
--   the user does to the queue while it is awaited.
-- - TableTab (tabs/TableTab/state/useTableTabStore.ts): the state in State, and in Actions the data
--   type of all actions with the function that applies one.
-- - TableTab/Structure: tabs/TableTab/state/useTableStructureStore.ts. TableTab/Fetching: fetchData and
--   useTableTabActions of tabs/TableTab/state/TableTabContext.tsx, with the calls of the handlers of
--   Backend as events of overlapping requests. The unmounting of a tab is not modelled.
-- - TableTab/Paging: the handlers of tabs/TableTab/components/{PaginationBar,PaginationPopover,
--   LimitOffsetPopover}.tsx. What parseInt reads is an argument. TableTab/FilterBar: the handlers of
--   tabs/TableTab/components/filters/useFilterToolbar.ts.
-- - Editing (tabs/TableTab/components): Pending has what grid/TableDataGrid.tsx takes and draws of
--   the queue, Handlers the handlers there and in toolbars/TableToolbar.tsx that queue changes through Queue and pin
--   the tab through Tabs, AddRow the dialog dialogs/AddRowDialog.tsx, Menu the context menus of
--   grid/contextMenuBuilders.ts with the handlers of the grid that they call, and Cells what the grid
--   keeps of selection, details and editing. Shown, Drawn, Edited, Deleted, Form, Entered, Added, Guarded
--   and Alone hold theorems.
--   Columns are not named like properties of every object, or like array indices.
-- - Details (tabs/TableTab/components/panes/details): Json has the values that rows hold, and
--   JSON.stringify, which is ECMAScript's; Formatters the functions of formatters.ts, and what
--   DetailValueRenderer.tsx draws of JSON and text.
-- - Grid (components/grid): the order of the columns (useColumnOrder.ts) in ColumnOrder, the selection of
--   rows (useGridSelection.ts, with its own state) in Selection, and the widths of columns
--   (useColumnSizing.ts) in Sizing. What is stored is an argument, already parsed, and arrayMove of
--   @dnd-kit/sortable is a parameter, of which Reordered asks that the item at the first place lands at the second, and
--   that the others stay in order.
-- - NewTable (tabs/NewTableTab): types.ts and the state of hooks/useNewTableForm.ts in Form, its editing
--   handlers in Edits, and handleSubmit in Submit. It calls the builders through TableBuilders.
-- - Catalog (lib/databases/{postgres,mysql}): what introspection.ts and adapter.ts of both folders have in
--   common, in Rows, Replies, Objects and Loads, over the parsers of a dialect (Introspection), which are in
--   Postgres/Introspection and Mysql/Introspection.
-- - Sidebar (features): schema-browser/useColumnsStore.ts in Columns, useSchemasStore.ts in Schemas, both
--   with their part of useSchemaLoader.ts, and starred/useStarredStore.ts in Stars. The columns are
--   loaded through Catalog.
-- - Backend (lib/backends): BaseRemoteBackend.ts, the events of a stream in Stream, and the replies of
--   the query service in Remote; queries that are not streamed, of LocalMemoryBackend.ts and
--   DatabaseService.ts, in Local; the history of queries, there and in LocalMemoryBackend.ts, in History.
--
-- Examples holds the theorems at concrete inputs.
--
-- Text is a list of UTF-16 units, as in JavaScript. Limits, offsets, pages and page sizes are whole
-- numbers without a bound; NaN and fractions are not modelled. A number in a row is the text that
-- String makes of it, and the theorems on rows ask that it has no quotation mark. Decimals are written
-- with one round of fuel for each digit; one more round than the number is always enough
-- (value-decimal, Prelude/Numbers). Every other function is structural. An exception is none, or an
-- error of the model's own. Identifiers from crypto.randomUUID and readings of the clock are arguments.
-- A backslash in a PostgreSQL string is an ordinary character (standard_conforming_strings, on by
-- default), and in a MySQL string an escape (NO_BACKSLASH_ESCAPES is off by default). Comments in SQL
-- are not lexed: the theorems say what is inside and outside quotes.
--
-- A stream is the list of its decoded chunks, its handlers are all given and do not throw, and its
-- cancellation does not fail. The answers of queries and what users do meanwhile are arguments. Widths
-- and places on the page are whole pixels. Names of types in catalogs are ASCII.
--
-- Not modelled: the catalog queries themselves, whose meaning is the server's, HTTP requests, keys and
-- local storage, dates and numbers that Intl formats, React components and the hooks that only draw, the
-- other hooks of the table tab, and all code outside frontend/src/workbench; these draw the
-- page or call libraries and services.
mod Prelude
pub mod Sql
pub mod Database
pub mod Catalog
pub mod Postgres
pub mod Mysql
pub mod Tabs
pub mod Queue
pub mod TableTab
pub mod Editing
pub mod Details
pub mod Grid
pub mod NewTable
pub mod Sidebar
pub mod Backend
pub mod Examples
