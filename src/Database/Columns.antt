-- ===== src/Database/Columns.antt =====
-- Columns, indexes and foreign keys (frontend/src/workbench/types/database.ts).
use vaultsql.Prelude.{Bool, List, Option, Text}
use vaultsql.Database.Filters.{ColumnCategory}

pub record ColumnInfo : Type 0 where
  pub name : Text
  pub data_type : Text
  pub nullable : Bool
  pub default_value : Option Text
  pub is_primary_key : Bool
  pub comment : Option Text
  pub category : ColumnCategory
  pub has_server_default : Bool
  pub is_generated : Bool
  pub is_auto_increment : Bool

pub record IndexInfo : Type 0 where
  pub name : Text
  pub columns : List Text
  pub is_unique : Bool
  pub is_primary : Bool
  pub type : Text

pub record ForeignKeyInfo : Type 0 where
  pub constraint_name : Text
  pub column : Text
  pub ref_schema : Text
  pub ref_table : Text
  pub ref_column : Text
  pub on_update : Text
  pub on_delete : Text

pub record TableStructure : Type 0 where
  pub columns : List ColumnInfo
  pub indexes : List IndexInfo
  pub foreign_keys : List ForeignKeyInfo
