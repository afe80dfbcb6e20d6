-- ===== src/Sidebar/Schemas.antt =====
-- frontend/src/workbench/features/schema-browser/useSchemasStore.ts, and the other functions of
-- useSchemaLoader.ts. While something is awaited, the store may change by `meanwhile`.
use vaultsql.Prelude.{
  List, [], ◌∷◌, Option, none, some, inl, inr, Text, codes, same, any, truthy, or_else,
  if◌then◌else◌,
}
use vaultsql.Catalog.Objects.{WorkbenchAsset, SchemaObject}
use vaultsql.Sidebar.Columns.{Awaited}

pub data SchemasStatus : Type 0 where
  idle loading success error : SchemasStatus

pub record SchemasStore : Type 0 where
  pub schema_names : List Text
  pub active_schema : Option Text
  pub assets : List WorkbenchAsset
  pub schema_objects : List SchemaObject
  pub status : SchemasStatus
  pub assets_status : SchemasStatus
  pub objects_status : SchemasStatus
  pub message : Option Text

abbrev pub initial_schemas : SchemasStore
initial_schemas = record {
  schema_names = [];
  active_schema = none;
  assets = [];
  schema_objects = [];
  status = idle;
  assets_status = idle;
  objects_status = idle;
  message = none;
}

pub data SchemasAction : Type 0 where
  begin_load begin_assets_load begin_objects_load : SchemasAction
  set_schema_names : List Text → SchemasAction
  set_active_schema : Text → SchemasAction
  set_assets : List WorkbenchAsset → SchemasAction
  set_schema_objects : List SchemaObject → SchemasAction
  fail_load fail_assets_load fail_objects_load : Text → SchemasAction

unfoldable pub set_schemas : SchemasAction → SchemasStore → SchemasStore
set_schemas begin_load s = record s { status = loading; message = none }
set_schemas (set_schema_names names) s = record s {
  schema_names = names;
  status = success;
  message = none;
}
set_schemas (set_active_schema name) s = record s {
  active_schema = some name;
  assets = [];
  schema_objects = [];
  assets_status = idle;
  objects_status = idle;
}
set_schemas begin_assets_load s = record s { assets_status = loading }
set_schemas (set_assets assets) s = record s { assets = assets; assets_status = success }
set_schemas begin_objects_load s = record s { objects_status = loading }
set_schemas (set_schema_objects objects) s = record s {
  schema_objects = objects;
  objects_status = success;
}
set_schemas (fail_load e) s = record s { status = error; message = some e }
set_schemas (fail_assets_load e) s = record s { assets_status = error; message = some e }
set_schemas (fail_objects_load e) s = record s { objects_status = error; message = some e }

abbrev pub head : List Text → Option Text
head [] = none
head (t ∷ ts) = some t

-- `schemaNames.includes('public') ? 'public' : (schemaNames[0] ?? null)`
unfoldable pub default_schema : List Text → Option Text
default_schema names =
    if any (λ n. same n (codes "public")) names then some (codes "public") else head names

-- An empty name is falsy.
abbrev pub with_active : Option Text → SchemasStore → SchemasStore
with_active none s = s
with_active (some name) s = if truthy name then set_schemas (set_active_schema name) s else s

abbrev pub after_names : Awaited (List Text) → SchemasStore → Option Text × SchemasStore
after_names (inr names) s = (
  default_schema names,
  with_active (default_schema names) (set_schemas (set_schema_names names) s),
)
after_names (inl e) s =
    (none, set_schemas (fail_load (or_else e (codes "Unknown error loading schemas"))) s)

module _ (meanwhile : SchemasStore → SchemasStore) where
  unfoldable pub load_schema_names : Awaited (List Text) → SchemasStore → Option Text × SchemasStore
  unfolding set_schemas default_schema
  load_schema_names reply s = after_names reply (meanwhile (set_schemas begin_load s))

  abbrev pub after_assets : Awaited (List WorkbenchAsset) → SchemasAction
  after_assets (inr assets) = set_assets assets
  after_assets (inl e) = fail_assets_load (or_else e (codes "Unknown error loading assets"))

  unfoldable pub load_schema_assets : Awaited (List WorkbenchAsset) → SchemasStore → SchemasStore
  unfolding set_schemas
  load_schema_assets reply s =
      set_schemas (after_assets reply) (meanwhile (set_schemas begin_assets_load s))

  abbrev pub after_objects : Awaited (List SchemaObject) → SchemasAction
  after_objects (inr objects) = set_schema_objects objects
  after_objects (inl e) = fail_objects_load (or_else e (codes "Unknown error loading objects"))

  unfoldable pub load_schema_objects : Awaited (List SchemaObject) → SchemasStore → SchemasStore
  unfolding set_schemas
  load_schema_objects reply s =
      set_schemas (after_objects reply) (meanwhile (set_schemas begin_objects_load s))
