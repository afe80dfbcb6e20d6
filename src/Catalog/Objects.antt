-- ===== src/Catalog/Objects.antt =====
-- The schemas, their tables, views and routines, and the definitions of these, as adapter.ts in
-- frontend/src/workbench/lib/databases/{postgres,mysql} makes them from the answers to its queries.
use vaultsql.Prelude.{
  ◌⊎◌, inl, inr, List, [], ◌∷◌, ◌++◌, map, Option, none, some, Text, codes, same, truthy, first_of,
  concat, if◌then◌else◌,
}
use vaultsql.Sql.Clauses.{items, table_name}
use vaultsql.Sql.Quoter.{Quoter}
use vaultsql.Catalog.Rows.{
  Cell, CatalogRow, cell, get_string, either_string, WorkbenchTableType, normalize_table_type,
}
use vaultsql.Catalog.Replies.{CatalogReply, rows_of, after_rows, dotted}

abbrev pub present : List (Option Text) → List Text
present [] = []
present (none ∷ ts) = present ts
present (some t ∷ ts) = t ∷ present ts

unfoldable pub load_schema_names : CatalogReply → Text ⊎ List Text
unfolding get_string
load_schema_names r = after_rows (rows_of (codes "Failed to load schema names") r) (λ rows. inr (
    present (
      map
        (λ row.
          first_of (get_string row (codes "schema_name")) (get_string row (codes "schemaName")))
        rows)))

pub record WorkbenchAsset : Type 0 where
  pub name : Text
  pub type : WorkbenchTableType
  pub schema : Text

-- `a ?? b` on the values of a row
abbrev pub there_or : Cell → Cell → Cell
there_or Cell.null b = b
there_or a b = a

unfoldable pub load_schema_assets : Text → CatalogReply → Text ⊎ List WorkbenchAsset
unfolding get_string normalize_table_type
load_schema_assets schema_name r =
    after_rows (rows_of (codes "Failed to load schema assets") r) (λ rows. inr (
      map
        (λ row. record {
          name = either_string row (codes "table_name") (codes "tableName");
          type =
              normalize_table_type
                (there_or (cell (codes "table_type") row) (cell (codes "tableType") row));
          schema = schema_name;
        })
        rows))

pub data SchemaObjectType : Type 0 where
  materialized_view function procedure : SchemaObjectType

pub record SchemaObject : Type 0 where
  pub name : Text
  pub type : SchemaObjectType
  pub schema : Text

abbrev pub routine_type : Option Text → Option SchemaObjectType
routine_type none = none
routine_type (some t) =
    if same t (codes "function")
    then some function
    else if same t (codes "procedure")
    then some procedure
    else none

abbrev pub object_named : Text → CatalogRow → SchemaObjectType → SchemaObject
object_named schema_name row type = record {
  name = either_string row (codes "object_name") (codes "objectName");
  type = type;
  schema = schema_name;
}

abbrev pub with_routine :
    Option SchemaObjectType → Text → CatalogRow → List SchemaObject → List SchemaObject
with_routine none schema_name row objects = objects
with_routine (some type) schema_name row objects = object_named schema_name row type ∷ objects

-- The rows that are functions or procedures.
unfoldable pub routines : Text → List CatalogRow → List SchemaObject
unfolding get_string
routines schema_name [] = []
routines schema_name (row ∷ rows) =
    with_routine
      (routine_type
        (first_of (get_string row (codes "object_type")) (get_string row (codes "objectType"))))
      schema_name row (routines schema_name rows)

-- PostgreSQL: an answer that is no success adds nothing.
unfoldable pub postgres_schema_objects : Text → CatalogReply → CatalogReply → List SchemaObject
unfolding routines
postgres_schema_objects schema_name views others =
    (if views.success
      then map (λ row. object_named schema_name row materialized_view) (items views.result)
      else [])
    ++ (if others.success then routines schema_name (items others.result) else [])

unfoldable pub mysql_schema_objects : Text → CatalogReply → Text ⊎ List SchemaObject
unfolding routines
mysql_schema_objects schema_name r =
    after_rows (rows_of (codes "Failed to load schema objects") r)
      (λ rows. inr (routines schema_name rows))

-- The definition in the first row, which must not be empty.
abbrev pub definition_or : Text → Option Text → Text ⊎ Text
definition_or message none = inl message
definition_or message (some t) = if truthy t then inr t else inl message

abbrev pub first_definition :
    (CatalogRow → Option Text) → Text → Text → List CatalogRow → Text ⊎ Text
first_definition get missing empty [] = inl missing
first_definition get missing empty (row ∷ rows) = definition_or empty (get row)

abbrev pub show_create : SchemaObjectType → Text
show_create procedure = codes "SHOW CREATE PROCEDURE"
show_create _ = codes "SHOW CREATE FUNCTION"

-- PostgreSQL: the definition of a materialized view is put behind its name.
abbrev pub defined_as : Text → Text → SchemaObjectType → Text → Text
defined_as schema name materialized_view definition =
    concat
      (codes "CREATE MATERIALIZED VIEW " ∷ dotted schema name ∷ codes " AS\n" ∷ definition ∷ [])
defined_as schema name _ definition = definition

abbrev pub object_definition : Text → Text → Text → CatalogReply → Text ⊎ Text
object_definition schema name key r =
    after_rows (rows_of (codes "Failed to get object definition") r) (
      first_definition (λ row. get_string row key)
        (codes "Object not found: " ++ dotted schema name)
        (codes "Definition not found for " ++ dotted schema name))

abbrev pub mapped {ℓ} : {A B : Type ℓ} → (A → B) → Text ⊎ A → Text ⊎ B
mapped f (inl e) = inl e
mapped f (inr a) = inr (f a)

unfoldable pub postgres_object_definition :
    Text → Text → SchemaObjectType → CatalogReply → Text ⊎ Text
unfolding get_string
postgres_object_definition schema name type r =
    mapped (defined_as schema name type) (object_definition schema name (codes "definition") r)

unfoldable pub mysql_object_definition : Text → Text → SchemaObjectType → CatalogReply → Text ⊎ Text
unfolding get_string
mysql_object_definition schema name materialized_view r =
    inl (codes "MySQL does not support materialized views")
mysql_object_definition schema name procedure r =
    object_definition schema name (codes "Create Procedure") r
mysql_object_definition schema name function r =
    object_definition schema name (codes "Create Function") r

module _ (q : Quoter) where
  abbrev pub view_of : Text → Text → Text ⊎ Text → Text ⊎ Text
  view_of schema view_name (inl e) = inl e
  view_of schema view_name (inr definition) = inr (
      concat (
        codes "CREATE OR REPLACE VIEW "
        ∷ table_name q schema view_name
        ∷ codes " AS\n"
        ∷ definition
        ∷ []))

  unfoldable pub get_view_definition : Text → Text → CatalogReply → Text ⊎ Text
  unfolding get_string
  get_view_definition schema view_name r = view_of schema view_name (
      after_rows (rows_of (codes "Failed to get view definition") r) (
        first_definition
          (λ row.
            first_of (get_string row (codes "create_statement"))
              (get_string row (codes "createStatement")))
          (codes "View not found: " ++ dotted schema view_name)
          (codes "Definition not found for view " ++ dotted schema view_name)))

  -- MySQL's SHOW CREATE, for an object that is no materialized view.
  unfoldable pub show_create_query : Text → Text → SchemaObjectType → Text
  show_create_query schema name type =
      concat (show_create type ∷ codes " " ∷ table_name q schema name ∷ [])
