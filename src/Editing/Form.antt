-- ===== src/Editing/Form.antt =====
-- The values in the dialog for a new row (AddRowDialog.tsx of
-- frontend/src/workbench/tabs/TableTab/components/dialogs).
use vaultsql.Prelude.{
  Bool, true, false, ◌&&◌, List, [], ◌∷◌, some, ◌≡◌, refl, ◌∙◌, inl, inr, arith, Text, same, keep,
  lookup, insert, lookup-insert, Bool-cases,
}
use vaultsql.Database.Columns.{ColumnInfo}
use vaultsql.Editing.Handlers.{has_column}
use vaultsql.Editing.AddRow.{
  ColumnValue, visible_columns, Values, Change, initial_value, filled, opened, value_change,
  null_toggle, default_toggle, changed, handle_change, change_all, shown_value,
}

-- No two columns have one name.
abbrev pub DistinctNames : List ColumnInfo → Type 0
DistinctNames [] = Unit
DistinctNames (c ∷ cs) = (has_column c.name cs ≡ false) × DistinctNames cs

pub has_column-keep :
    (p : ColumnInfo → Bool) (name : Text) (cs : List ColumnInfo)
    → has_column name cs ≡ false
    → has_column name (keep p cs) ≡ false
has_column-keep p name [] h = h
has_column-keep p name (c ∷ cs) h = ground (arith, has_column-keep p name cs)

pub DistinctNames-keep :
    (p : ColumnInfo → Bool) (cs : List ColumnInfo) → DistinctNames cs → DistinctNames (keep p cs)
DistinctNames-keep p [] d = d
DistinctNames-keep p (c ∷ cs) (n, d) = elim (Bool-cases (p c)) [
  | inl e ↦ rw e (has_column-keep p c.name cs n, DistinctNames-keep p cs d)
  | inr e ↦ rw e (DistinctNames-keep p cs d)
]

no_other : (b : Bool) → b ≡ true → b ≡ false → ⊥
no_other b p q = cc

-- A column has a value in the form, and it is not both NULL and the default.
abbrev pub HasValue : Values → Text → Type 0
HasValue values name =
    (v : ColumnValue) × (lookup name values ≡ some v) × ((v.is_null && v.use_default) ≡ false)

HasValue-insert :
    (name k : Text) (v : ColumnValue) (values : Values)
    → (v.is_null && v.use_default) ≡ false
    → (same k name ≡ false → HasValue values name)
    → HasValue (insert k v values) name
HasValue-insert name k v values h rest = elim (Bool-cases (same k name)) [
  | inl e ↦ (v, lookup-insert name k v values ∙ rw e refl, h)
  | inr e ↦ let (w, there, sound) = rest e in (w, lookup-insert name k v values ∙ rw e there, sound)
]

HasValue-filled-kept :
    (name : Text) (cols : List ColumnInfo) (values : Values)
    → HasValue values name
    → HasValue (filled cols values) name
HasValue-filled-kept name [] values h = h
HasValue-filled-kept name (col ∷ cols) values h =
    HasValue-filled-kept name cols _
      (HasValue-insert name col.name (initial_value col) values (ground arith) (λ e. h))

HasValue-filled :
    (name : Text) (cols : List ColumnInfo) (values : Values)
    → has_column name cols ≡ true
    → HasValue (filled cols values) name
HasValue-filled name [] values h = elim (no_other false h refl) [ ]
HasValue-filled name (col ∷ cols) values h = elim (Bool-cases (same col.name name)) [
  | inl e ↦ HasValue-filled-kept name cols _ (
      HasValue-insert name col.name (initial_value col) values (ground arith)
        (λ n. elim (no_other _ e n) [ ]))
  | inr e ↦ HasValue-filled name cols _ (ground (arith, h, e))
]

HasValue-change_all :
    (name : Text) (changes : List (Text × Change)) (values : Values)
    → HasValue values name
    → HasValue (change_all changes values) name
unfolding change_all handle_change changed
HasValue-change_all name [] values h = h
HasValue-change_all name ((k, change) ∷ changes) values h = HasValue-change_all name changes _ (
    HasValue-insert name k (changed change (shown_value k values)) values (exclusive change _)
      (λ e. h))
  where
    exclusive :
        (change : Change) (v : ColumnValue)
        → let w = changed change v in (w.is_null && w.use_default) ≡ false
    exclusive (value_change new_value) v = refl
    exclusive null_toggle v = ground arith
    exclusive default_toggle v = ground arith

-- However the user has changed the form since it was opened, each column that it shows has a value
-- in it, which is not both NULL and the default.
pub change_all-HasValue :
    (columns : List ColumnInfo) (changes : List (Text × Change)) (name : Text)
    → has_column name (visible_columns columns) ≡ true
    → HasValue (change_all changes (opened columns)) name
unfolding opened
change_all-HasValue columns changes name h =
    HasValue-change_all name changes _ (HasValue-filled name (visible_columns columns) [] h)
