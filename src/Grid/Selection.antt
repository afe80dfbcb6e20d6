-- ===== src/Grid/Selection.antt =====
-- frontend/src/workbench/components/grid/useGridSelection.ts, with its own state: the selected row
-- keys, and the one that a range starts from. A set is the list of its members.
use vaultsql.Prelude.{
  ℕ, zero, suc, ◌-◌, min, max, Bool, true, not, ◌&&◌, List, [], ◌∷◌, ◌++◌, Option, none, some, Text,
  same, keep, length, get_elem?, ltb, ◌==◌, if◌then◌else◌,
}
use vaultsql.Grid.ColumnOrder.{is_in, index_of}

pub record GridSelection : Type 0 where
  pub selected : List Text
  pub last : Option Text

-- `set.add(key)`; a row that is not there has no key.
unfoldable pub add_key : Option Text → List Text → List Text
add_key none selected = selected
add_key (some k) selected = if is_in k selected then selected else selected ++ k ∷ []

-- `for (let i = start; i <= end; i++) newSelection.add(rowKeys[i])`, by the rounds left.
unfoldable pub add_range : List Text → ℕ → ℕ → List Text → List Text
unfolding add_key
add_range row_keys i zero selected = selected
add_range row_keys i (suc n) selected =
    add_range row_keys (suc i) n (add_key (get_elem? row_keys i) selected)

abbrev pub rounds : ℕ → ℕ → ℕ
rounds a b = suc (max a b - min a b)

unfoldable pub toggle_key : Text → List Text → List Text
toggle_key k selected =
    if is_in k selected then keep (λ x. not (same x k)) selected else selected ++ k ∷ []

-- The rows between two that are there are added; otherwise nothing is.
abbrev pub add_between : List Text → Option ℕ → Option ℕ → List Text → List Text
add_between row_keys (some a) (some b) selected = add_range row_keys (min a b) (rounds a b) selected
add_between row_keys _ _ selected = selected

-- `shiftKey && lastSelectedRef.current`: an empty key is falsy.
abbrev pub anchor : Bool → Option Text → Option Text
anchor true (some (c ∷ k)) = some (c ∷ k)
anchor _ _ = none

module _ (row_keys : List Text) where
  abbrev pub toggle_from : Option Text → Text → GridSelection → GridSelection
  toggle_from (some from) row_key s = record s {
    selected = add_between row_keys (index_of from row_keys) (index_of row_key row_keys) s.selected;
  }
  toggle_from none row_key s = record {
    selected = toggle_key row_key s.selected;
    last = some row_key;
  }

  unfoldable pub toggle_row : Text → Bool → GridSelection → GridSelection
  unfolding add_range toggle_key
  toggle_row row_key shift_key s = toggle_from (anchor shift_key s.last) row_key s

  -- `new Set(rowKeys)`
  unfoldable pub select_all : GridSelection → GridSelection
  unfolding add_range
  select_all s = record { selected = add_range row_keys 0 (length row_keys) []; last = none }

  unfoldable pub clear_selection : GridSelection → GridSelection
  clear_selection s = record { selected = []; last = none }

  abbrev pub range_selected : Option ℕ → Option ℕ → Text → GridSelection → GridSelection
  range_selected (some a) (some b) to_key s = record {
    selected = add_range row_keys (min a b) (rounds a b) [];
    last = some to_key;
  }
  range_selected _ _ to_key s = s

  unfoldable pub select_range : Text → Text → GridSelection → GridSelection
  unfolding add_range
  select_range from_key to_key s =
      range_selected (index_of from_key row_keys) (index_of to_key row_keys) to_key s

  unfoldable pub is_all_selected : GridSelection → Bool
  is_all_selected s = ltb 0 (length row_keys) && (length s.selected == length row_keys)

  unfoldable pub is_some_selected : GridSelection → Bool
  is_some_selected s = ltb 0 (length s.selected) && ltb (length s.selected) (length row_keys)
