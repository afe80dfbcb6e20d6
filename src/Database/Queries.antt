-- ===== src/Database/Queries.antt =====
-- Parameters and results of the table queries (frontend/src/workbench/types/database.ts). A limit
-- and an offset are whole numbers.
use vaultsql.Prelude.{List, Option, Text, ℤ}
use vaultsql.Database.Filters.{FilterInput, FilterMode}

pub data SortDirection : Type 0 where
  asc desc : SortDirection

pub record SortColumn : Type 0 where
  pub column : Text
  pub direction : SortDirection

pub record TableQueryParams : Type 0 where
  pub schema : Text
  pub table : Text
  pub columns : Option (List Text)
  pub filters : Option (List FilterInput)
  pub raw_where : Option Text
  pub filter_mode : Option FilterMode
  pub sort : Option (List SortColumn)
  pub limit : Option ℤ
  pub offset : Option ℤ

pub record TableQueryResult : Type 0 where
  pub sql : Text
  pub count_sql : Text

pub record ExportQueryParams : Type 0 where
  pub schema : Text
  pub table : Text
  pub columns : Option (List Text)
  pub filters : Option (List FilterInput)
  pub sort : Option (List SortColumn)
  pub limit : Option ℤ
  pub offset : Option ℤ

pub record ExportQueryResult : Type 0 where
  pub sql : Text

pub record EstimatedCountParams : Type 0 where
  pub schema : Text
  pub table : Text
  pub filters : Option (List FilterInput)

pub record EstimatedCountResult : Type 0 where
  pub sql : Text
  pub fallback_sql : Text
