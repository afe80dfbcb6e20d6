-- ===== src/Grid/Sizing.antt =====
-- frontend/src/workbench/components/grid/useColumnSizing.ts: the widths of columns, in whole pixels.
-- What is stored is an argument, already parsed.
use vaultsql.Prelude.{
  ℕ, max, min, List, [], ◌∷◌, Option, none, some, Text, ℤ, pos, pos_part, ◌+ℤ◌, ◌-ℤ◌, or_else,
  lookup, insert,
}

abbrev pub min_column_width : ℕ
min_column_width = 40

abbrev pub max_auto_fit_width : ℕ
max_auto_fit_width = 500

abbrev pub default_column_width : ℕ
default_column_width = 120

pub record GridColumnDef : Type 0 where
  pub id : Text
  pub width : Option ℕ
  pub min_width : Option ℕ
  pub max_width : Option ℕ

abbrev pub Widths : Type 0
Widths = List (Text × ℕ)

pub record ResizeState : Type 0 where
  pub column_id : Text
  pub start_x : ℤ
  pub start_width : ℕ
  pub min_width : Option ℕ
  pub max_width : Option ℕ

-- The column that is resized is the one of `resizeRef`.
pub record SizingState : Type 0 where
  pub widths : Widths
  pub resize : Option ResizeState

abbrev pub set_width : Text → Option ℕ → Widths → Widths
set_width column_id none widths = widths
set_width column_id (some w) widths = insert column_id w widths

unfoldable pub default_widths : List GridColumnDef → Widths → Widths
default_widths [] widths = widths
default_widths (col ∷ columns) widths = default_widths columns (set_width col.id col.width widths)

-- `{ ...defaults, ...parsed }`
unfoldable pub merge_widths : Widths → Widths → Widths
merge_widths defaults [] = defaults
merge_widths defaults ((k, w) ∷ stored) = merge_widths (insert k w defaults) stored

unfoldable pub initial_widths : List GridColumnDef → Option Widths → Widths
unfolding default_widths merge_widths
initial_widths columns none = default_widths columns []
initial_widths columns (some stored) = merge_widths (default_widths columns []) stored

-- A width of zero is falsy.
abbrev pub kept_width : Option ℕ → Option ℕ → Option ℕ
kept_width none width = width
kept_width (some ℕ.zero) width = width
kept_width (some (ℕ.suc n)) width = some (ℕ.suc n)

unfoldable pub reconcile_widths : List GridColumnDef → Widths → Widths → Widths
reconcile_widths [] current next = next
reconcile_widths (col ∷ columns) current next =
    reconcile_widths columns current
      (set_width col.id (kept_width (lookup col.id current) col.width) next)

-- A width that would be negative counts as none: the last `Math.max` makes it the least width.
unfoldable pub set_column_width : Text → ℤ → SizingState → SizingState
set_column_width column_id width s = record s {
  widths =
      insert column_id (max min_column_width (min max_auto_fit_width (pos_part width))) s.widths;
}

unfoldable pub start_resize : GridColumnDef → ℤ → SizingState → SizingState
start_resize column start_x s = record s {
  resize = some (record {
    column_id = column.id;
    start_x = start_x;
    start_width = or_else (lookup column.id s.widths) (or_else column.width default_column_width);
    min_width = column.min_width;
    max_width = column.max_width;
  });
}

abbrev pub at_least : Option ℕ → ℕ → ℕ
at_least none w = w
at_least (some lo) w = max lo w

abbrev pub at_most : Option ℕ → ℕ → ℕ
at_most none w = w
at_most (some hi) w = min hi w

-- The width for a pointer at `client_x`.
unfoldable pub width_at : ℤ → ResizeState → ℕ
width_at client_x r = max min_column_width (
    at_most r.max_width
      (at_least r.min_width (pos_part (pos r.start_width +ℤ (client_x -ℤ r.start_x)))))

abbrev pub resized : ℤ → Option ResizeState → Widths → Widths
resized client_x none widths = widths
resized client_x (some r) widths = insert r.column_id (width_at client_x r) widths

unfoldable pub apply_resize : ℤ → SizingState → SizingState
apply_resize client_x s = record s { widths = resized client_x s.resize s.widths }

unfoldable pub stop_resize : SizingState → SizingState
stop_resize s = record s { resize = none }

-- A drag: the pointer moves to each place in turn.
unfoldable pub drag : List ℤ → SizingState → SizingState
unfolding apply_resize
drag [] s = s
drag (x ∷ xs) s = drag xs (apply_resize x s)
