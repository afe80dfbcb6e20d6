-- ===== src/Editing/Guarded.antt =====
-- What the context menus (grid/contextMenuBuilders.ts of
-- frontend/src/workbench/tabs/TableTab/components) let a user do who must not change the data.
use vaultsql.Prelude.{
  ℕ, Bool, true, false, List, ◌++◌, Option, none, some, ◌≡◌, refl, Text, same, any, if◌then◌else◌,
  All, All-append, Bool-cases, inl, inr, Option-cases, find, codes,
}
use vaultsql.Database.Mutations.{Value, MutationColumnValue, InsertParams, MutationResult}
use vaultsql.Database.Columns.{ColumnInfo, ForeignKeyInfo}
use vaultsql.TableTab.State.{Row}
use vaultsql.TableTab.Actions.{apply}
use vaultsql.TableTab.Fetching.{command}
use vaultsql.Editing.Pending.{is_nullish, cell}
use vaultsql.Editing.Handlers.{EditedTable, Stamp}
use vaultsql.Editing.Menu.{
  GridContextMenuItem, MenuState, pushed_if, item, item_id, open_reference, opened, apply_filter,
  handle_column_action, edit_items, has_default, build_cell_menu_items, build_row_menu_items,
  choose, can_edit_cell,
}

module _ (t : EditedTable) (foreign_keys : List ForeignKeyInfo) (stamp : Stamp) (rows : List Row)
    (index : ℕ) (clicked : Row) (s : MenuState) where
  -- An item that leaves the queue and the selection as they are.
  abbrev pub IsHarmless : GridContextMenuItem → Type 0
  IsHarmless i =
      let s' = choose t foreign_keys stamp rows index clicked i s in
      (s'.stores.entries ≡ s.stores.entries)
      × (s'.stores.selected ≡ s.stores.selected)
      × (s'.store.selected ≡ s.store.selected)

  All-pushed_if :
      (b : Bool) (i : GridContextMenuItem) → IsHarmless i → All IsHarmless (pushed_if b i)
  All-pushed_if true i h = (h, tt)
  All-pushed_if false i h = tt

  abbrev Same : MenuState → Type 0
  Same s' =
      (s'.stores.entries ≡ s.stores.entries)
      × (s'.stores.selected ≡ s.stores.selected)
      × (s'.store.selected ≡ s.store.selected)

  either_way : (b : Bool) (x y : MenuState) → Same x → Same y → Same (if b then x else y)
  either_way true x y h k = h
  either_way false x y h k = k

  Same-handle_column_action :
      (column : Text) → Same (handle_column_action foreign_keys column clicked s)
  unfolding handle_column_action
  Same-handle_column_action column =
      elim (Option-cases (find (λ f. same f.column column) foreign_keys)) [
        | inl e ↦ rw (e, handle_column_action) (refl, refl, refl)
        | inr (fk, e) ↦
            rw (e, handle_column_action)
              (either_way (is_nullish (cell clicked column)) s (opened fk (cell clicked column) s)
                (refl, refl, refl) (refl, refl, refl))
      ]

  All-edit_items :
      (stringify : Value → Text) (column : Text) (info : Option ColumnInfo) (v : Value)
      → All IsHarmless (edit_items stringify column info v false)
  unfolding choose
  All-edit_items stringify column none v = tt
  All-edit_items stringify column (some info) v =
      All-append IsHarmless _ _ (All-pushed_if info.nullable _ (refl, refl, refl)) (
        All-append IsHarmless _ _ (All-pushed_if (has_default (some info)) _ (refl, refl, refl))
          ((refl, refl, refl), tt))

  -- The items that are there without a primary key.
  reference_item :
      (column : Text) (v : Value) (actionable : List Text)
      → All IsHarmless (
          pushed_if (any (same column) actionable) (
            item
              (item_id (codes "open-reference") column)
              (codes "Open referenced row")
              (is_nullish v)
              (open_reference column)))
  unfolding choose
  reference_item column v actionable =
      All-pushed_if (any (same column) actionable) _
        (either_way (is_nullish v) s _ (refl, refl, refl) (Same-handle_column_action column))

  cell_items :
      (stringify : Value → Text) (column : Text) (info : Option ColumnInfo) (v : Value)
      (pk : Option Text) (actionable : List Text)
      → All IsHarmless (build_cell_menu_items stringify column info v pk actionable false)
  unfolding build_cell_menu_items choose apply_filter command apply
  cell_items stringify column info v none actionable =
      All-append IsHarmless _ _ (reference_item column v actionable)
        ((refl, refl, refl), ((refl, refl, refl), ((refl, refl, refl), tt)))
  cell_items stringify column info v (some pk) actionable =
      All-append IsHarmless _ _ (reference_item column v actionable)
        ((refl, refl, refl), ((refl, refl, refl), ((refl, refl, refl), edits info)))
    where
      edits :
          (info : Option ColumnInfo)
          → All IsHarmless (edit_items stringify column info v (can_edit_cell false (some pk) info))
      edits none = tt
      edits (some info) = All-edit_items stringify column (some info) v

  row_items :
      (build_insert_query : InsertParams → MutationResult) (schema table : Text) (row : Row)
      (pk : Option Text) (json : Text) (values : List MutationColumnValue)
      → All IsHarmless
          (build_row_menu_items build_insert_query schema table row pk json values false)
  unfolding build_row_menu_items choose
  row_items build_insert_query schema table row none json values =
      ((refl, refl, refl), ((refl, refl, refl), ((refl, refl, refl), ((refl, refl, refl), tt))))
  row_items build_insert_query schema table row (some pk) json values =
      elim (Bool-cases (is_nullish (cell row pk))) [
        | inl e ↦ rw (e) (
          (refl, refl, refl),
          ((refl, refl, refl), ((refl, refl, refl), ((refl, refl, refl), tt))),
        )
        | inr e ↦ rw (e) (
          (refl, refl, refl),
          ((refl, refl, refl), ((refl, refl, refl), ((refl, refl, refl), tt))),
        )
      ]

-- A user who must not change the data: whatever is chosen in the menu of a cell or of a row,
-- enabled or not, its handler leaves the queue and the selection of rows as they are. What a fetch
-- does that the handler starts is not part of it.
pub choose-IsHarmless :
    (t : EditedTable) (foreign_keys : List ForeignKeyInfo) (stamp : Stamp) (rows : List Row)
    (index : ℕ) (s : MenuState) (stringify : Value → Text) (column : Text)
    (info : Option ColumnInfo) (v : Value) (pk : Option Text) (actionable : List Text)
    (build_insert_query : InsertParams → MutationResult) (row : Row) (json : Text)
    (values : List MutationColumnValue)
    → All (IsHarmless t foreign_keys stamp rows index row s) (
        build_cell_menu_items stringify column info v pk actionable false
        ++ build_row_menu_items build_insert_query t.schema t.table row pk json values false)
choose-IsHarmless t foreign_keys stamp rows index s stringify column info v pk actionable
      build_insert_query row json values =
    All-append _ _ _
      (cell_items t foreign_keys stamp rows index row s stringify column info v pk actionable)
      (row_items t foreign_keys stamp rows index row s build_insert_query t.schema t.table row pk
        json values)
