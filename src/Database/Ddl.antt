-- ===== src/Database/Ddl.antt =====
-- Parameters and results of the schema changes (frontend/src/workbench/types/database.ts). An
-- optional flag that the builders only test for truth is a `Bool`, `false` where it is absent.
use vaultsql.Prelude.{List, Bool, Option, Text}

pub data ForeignKeyAction : Type 0 where
  cascade set_null restrict no_action set_default : ForeignKeyAction

pub record Reference : Type 0 where
  pub schema : Text
  pub table : Text
  pub column : Text
  pub on_delete : Option ForeignKeyAction
  pub on_update : Option ForeignKeyAction

-- `default_value` is `none` for undefined and `some none` for null.
pub record ColumnDefinition : Type 0 where
  pub name : Text
  pub data_type : Text
  pub nullable : Option Bool
  pub default_value : Option (Option Text)
  pub primary_key : Bool
  pub unique : Bool
  pub references : Option Reference
  pub check : Option Text

pub data IndexType : Type 0 where
  btree hash gin gist brin : IndexType

pub record IndexDefinition : Type 0 where
  pub name : Option Text
  pub columns : List Text
  pub unique : Bool
  pub type : Option IndexType

pub data DdlOperation : Type 0 where
  create_table alter_table drop_table truncate_table create_index drop_index : DdlOperation

pub record DdlResult : Type 0 where
  pub sql : Text
  pub operation : DdlOperation
  pub schema : Text
  pub table : Text

pub record CreateTableParams : Type 0 where
  pub schema : Text
  pub table : Text
  pub columns : List ColumnDefinition
  pub indexes : Option (List IndexDefinition)
  pub if_not_exists : Bool

pub record DropTableParams : Type 0 where
  pub schema : Text
  pub table : Text
  pub if_exists : Bool
  pub cascade : Bool

pub record TruncateTableParams : Type 0 where
  pub schema : Text
  pub table : Text
  pub cascade : Bool
  pub restart_identity : Bool

pub record RenameTableParams : Type 0 where
  pub schema : Text
  pub table : Text
  pub new_name : Text

pub record AddColumnParams : Type 0 where
  pub schema : Text
  pub table : Text
  pub column : ColumnDefinition

pub record DropColumnParams : Type 0 where
  pub schema : Text
  pub table : Text
  pub column : Text
  pub cascade : Bool

pub record RenameColumnParams : Type 0 where
  pub schema : Text
  pub table : Text
  pub column : Text
  pub new_name : Text

pub record AlterColumnParams : Type 0 where
  pub schema : Text
  pub table : Text
  pub column : Text
  pub data_type : Option Text
  pub nullable : Option Bool
  pub default_value : Option (Option Text)

pub record CreateIndexParams : Type 0 where
  pub schema : Text
  pub table : Text
  pub index : IndexDefinition
  pub if_not_exists : Bool

pub record DropIndexParams : Type 0 where
  pub schema : Text
  pub index_name : Text
  pub table : Option Text
  pub if_exists : Bool
  pub cascade : Bool

pub record AddForeignKeyParams : Type 0 where
  pub schema : Text
  pub table : Text
  pub column : Text
  pub constraint_name : Option Text
  pub ref_schema : Text
  pub ref_table : Text
  pub ref_column : Text
  pub on_delete : Option ForeignKeyAction
  pub on_update : Option ForeignKeyAction

pub record DropForeignKeyParams : Type 0 where
  pub schema : Text
  pub table : Text
  pub constraint_name : Text
  pub cascade : Bool
