-- ===== src/NewTable/Edits.antt =====
-- The handlers of frontend/src/workbench/tabs/NewTableTab/hooks/useNewTableForm.ts that edit the
-- form. A partial object of updates has an optional field for each field.
use vaultsql.Prelude.{
  Bool, true, not, List, [], ◌∷◌, ◌++◌, map, Option, Text, same, any, keep, or_else, if◌then◌else◌,
}
use vaultsql.Database.Ddl.{ForeignKeyAction}
use vaultsql.NewTable.Form.{
  FormColumn, FormIndex, FormForeignKey, NewTableForm, create_empty_column, create_empty_index,
  create_empty_foreign_key,
}

pub record ColumnUpdates : Type 0 where
  pub id : Option Text
  pub name : Option Text
  pub data_type : Option Text
  pub primary_key : Option Bool
  pub not_null : Option Bool
  pub unique : Option Bool
  pub default_value : Option Text

pub record IndexUpdates : Type 0 where
  pub id : Option Text
  pub name : Option Text
  pub columns : Option (List Text)
  pub unique : Option Bool

pub record ForeignKeyUpdates : Type 0 where
  pub id : Option Text
  pub column : Option Text
  pub ref_schema : Option Text
  pub ref_table : Option Text
  pub ref_column : Option Text
  pub on_delete : Option ForeignKeyAction
  pub on_update : Option ForeignKeyAction

unfoldable pub add_column : Text → NewTableForm → NewTableForm
unfolding create_empty_column
add_column new_id f = record f { columns = f.columns ++ create_empty_column new_id ∷ [] }

unfoldable pub remove_column : Text → NewTableForm → NewTableForm
remove_column id f = record f { columns = keep (λ col. not (same col.id id)) f.columns }

abbrev pub column_updated : ColumnUpdates → FormColumn → FormColumn
column_updated u col = record {
  id = or_else u.id col.id;
  name = or_else u.name col.name;
  data_type = or_else u.data_type col.data_type;
  primary_key = or_else u.primary_key col.primary_key;
  not_null = or_else u.not_null col.not_null;
  unique = or_else u.unique col.unique;
  default_value = or_else u.default_value col.default_value;
}

unfoldable pub update_column : Text → ColumnUpdates → NewTableForm → NewTableForm
update_column id u f = record f {
  columns = map (λ col. if same col.id id then column_updated u col else col) f.columns;
}

unfoldable pub add_index : Text → NewTableForm → NewTableForm
unfolding create_empty_index
add_index new_id f = record f {
  indexes = f.indexes ++ create_empty_index new_id ∷ [];
  indexes_open = true;
}

unfoldable pub remove_index : Text → NewTableForm → NewTableForm
remove_index id f = record f { indexes = keep (λ idx. not (same idx.id id)) f.indexes }

abbrev pub index_updated : IndexUpdates → FormIndex → FormIndex
index_updated u idx = record {
  id = or_else u.id idx.id;
  name = or_else u.name idx.name;
  columns = or_else u.columns idx.columns;
  unique = or_else u.unique idx.unique;
}

unfoldable pub update_index : Text → IndexUpdates → NewTableForm → NewTableForm
update_index id u f = record f {
  indexes = map (λ idx. if same idx.id id then index_updated u idx else idx) f.indexes;
}

-- The columns of an index with one put in or taken out.
abbrev pub toggled : Text → List Text → List Text
toggled column columns =
    if any (λ c. same c column) columns
    then keep (λ c. not (same c column)) columns
    else columns ++ column ∷ []

unfoldable pub toggle_index_column : Text → Text → NewTableForm → NewTableForm
toggle_index_column index_id column f = record f {
  indexes =
      map
        (λ idx.
          if same idx.id index_id then record idx { columns = toggled column idx.columns } else idx)
        f.indexes;
}

unfoldable pub add_foreign_key : Text → NewTableForm → NewTableForm
unfolding create_empty_foreign_key
add_foreign_key new_id f = record f {
  foreign_keys =
      f.foreign_keys ++ record (create_empty_foreign_key new_id) { ref_schema = f.schema } ∷ [];
  foreign_keys_open = true;
}

unfoldable pub remove_foreign_key : Text → NewTableForm → NewTableForm
remove_foreign_key id f = record f {
  foreign_keys = keep (λ fk. not (same fk.id id)) f.foreign_keys;
}

abbrev pub foreign_key_updated : ForeignKeyUpdates → FormForeignKey → FormForeignKey
foreign_key_updated u fk = record {
  id = or_else u.id fk.id;
  column = or_else u.column fk.column;
  ref_schema = or_else u.ref_schema fk.ref_schema;
  ref_table = or_else u.ref_table fk.ref_table;
  ref_column = or_else u.ref_column fk.ref_column;
  on_delete = or_else u.on_delete fk.on_delete;
  on_update = or_else u.on_update fk.on_update;
}

unfoldable pub update_foreign_key : Text → ForeignKeyUpdates → NewTableForm → NewTableForm
update_foreign_key id u f = record f {
  foreign_keys = map (λ fk. if same fk.id id then foreign_key_updated u fk else fk) f.foreign_keys;
}
