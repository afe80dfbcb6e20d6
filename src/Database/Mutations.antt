-- ===== src/Database/Mutations.antt =====
-- Parameters and results of the row mutations (frontend/src/workbench/types/database.ts).
use vaultsql.Prelude.{List, Bool, Text}

-- A value of the type `unknown`. A number and any other value come with the text that `String`
-- makes of them, which is the JavaScript runtime's.
pub data Value : Type 0 where
  null undefined : Value
  string : Text → Value
  number : Text → Value
  boolean : Bool → Value
  other : Text → Value

pub data MutationOperation : Type 0 where
  insert update delete : MutationOperation

pub record MutationResult : Type 0 where
  pub sql : Text
  pub operation : MutationOperation
  pub table : Text
  pub schema : Text

pub record PrimaryKeyValue : Type 0 where
  pub column : Text
  pub value : Value

-- The optional flags are only tested for truth, so an absent one is `false`.
pub record MutationColumnValue : Type 0 where
  pub column : Text
  pub value : Value
  pub is_null : Bool
  pub use_default : Bool

pub record InsertParams : Type 0 where
  pub schema : Text
  pub table : Text
  pub values : List MutationColumnValue

pub record UpdateParams : Type 0 where
  pub schema : Text
  pub table : Text
  pub values : List MutationColumnValue
  pub primary_key : PrimaryKeyValue

pub record DeleteParams : Type 0 where
  pub schema : Text
  pub table : Text
  pub primary_key : PrimaryKeyValue
