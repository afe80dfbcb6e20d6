-- ===== src/Sidebar/Columns.antt =====
-- frontend/src/workbench/features/schema-browser/useColumnsStore.ts, and loadAllColumns of
-- useSchemaLoader.ts.
use vaultsql.Prelude.{
  List, [], ◌++◌, Option, none, some, ◌⊎◌, inl, inr, Text, codes, starts_with, same, lookup, merge,
  erase_if, or_else,
}
use vaultsql.Database.Columns.{ColumnInfo}
use vaultsql.Catalog.Loads.{ColumnsMap}
use vaultsql.Catalog.Replies.{dotted}

pub data ColumnsStatus : Type 0 where
  idle loading success error : ColumnsStatus

pub record ColumnsStore : Type 0 where
  pub columns : ColumnsMap
  pub status : ColumnsStatus
  pub message : Option Text

-- How `await` ends: with something thrown, with its message if it is an `Error`, or with a value.
abbrev pub Awaited {ℓ} : Type ℓ → Type ℓ
Awaited A = Option Text ⊎ A

-- A value that was computed, or whose computation threw an `Error`.
abbrev pub settled {ℓ} : {A : Type ℓ} → Text ⊎ A → Awaited A
settled (inl e) = inl (some e)
settled (inr a) = inr a

abbrev pub empty_store : ColumnsStore
empty_store = record { columns = []; status = idle; message = none }

unfoldable pub begin_load : ColumnsStore → ColumnsStore
begin_load s = record s { status = loading; message = none }

unfoldable pub merge_columns : ColumnsMap → ColumnsStore → ColumnsStore
merge_columns new_columns s = record {
  columns = merge s.columns new_columns;
  status = success;
  message = none;
}

unfoldable pub fail_load : Text → ColumnsStore → ColumnsStore
fail_load e s = record s { status = error; message = some e }

unfoldable pub invalidate_table : Text → Text → ColumnsStore → ColumnsStore
invalidate_table schema table s = record s {
  columns = erase_if (λ k. same k (dotted schema table)) s.columns;
}

unfoldable pub invalidate_schema : Text → ColumnsStore → ColumnsStore
invalidate_schema schema s = record s {
  columns = erase_if (starts_with (schema ++ codes ".")) s.columns;
}

unfoldable pub invalidate_all : ColumnsStore → ColumnsStore
invalidate_all s = empty_store

unfoldable pub get_table_columns : Text → Text → ColumnsStore → Option (List ColumnInfo)
get_table_columns schema table s = lookup (dotted schema table) s.columns

abbrev pub after_load : Awaited ColumnsMap → ColumnsStore → ColumnsStore
after_load (inr columns) s = merge_columns columns s
after_load (inl e) s = fail_load (or_else e (codes "Unknown error loading columns")) s

-- While the columns are awaited, the store may change to another by `meanwhile`.
unfoldable pub load_all_columns :
    Awaited ColumnsMap → (ColumnsStore → ColumnsStore) → ColumnsStore → ColumnsStore
unfolding begin_load merge_columns fail_load
load_all_columns reply meanwhile s = after_load reply (meanwhile (begin_load s))
