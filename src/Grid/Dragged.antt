-- ===== src/Grid/Dragged.antt =====
-- What a drag of a column's edge does.
use vaultsql.Prelude.{
  ℕ, ◌≤◌, max, Bool, true, false, List, [], ◌∷◌, ◌++◌, some, ◌≡◌, refl, ap, ◌∙◌, arith, Text, ℤ,
  same, same_refl, or_else, lookup, lookup-insert, if◌then◌else◌,
}
use vaultsql.Grid.Sizing.{
  GridColumnDef, SizingState, ResizeState, start_resize, apply_resize, drag, width_at,
  default_column_width, min_column_width, resized,
}

-- Only the last place counts.
drag-resize : (xs : List ℤ) (s : SizingState) → (drag xs s).resize ≡ s.resize
unfolding drag
drag-resize [] s = refl
drag-resize (x ∷ xs) s = drag-resize xs (apply_resize x s)

lookup-drag :
    (xs : List ℤ) (x : ℤ) (r : ResizeState) (s : SizingState) (k : Text)
    → s.resize ≡ some r
    → lookup k (drag (xs ++ x ∷ []) s).widths
      ≡ (if same r.column_id k then some (width_at x r) else lookup k s.widths)
unfolding drag
lookup-drag [] x r s k h = rw h (lookup-insert k r.column_id (width_at x r) s.widths)
lookup-drag (y ∷ ys) x r s k h =
    lookup-drag ys x r (apply_resize y s) k h
    ∙ rw (ap (λ o. resized y o s.widths) h, lookup-insert k r.column_id (width_at y r) s.widths)
        (forget (same r.column_id k))
  where
    forget :
        (b : Bool)
        → (if b
            then some (width_at x r)
            else (if b then some (width_at y r) else lookup k s.widths))
          ≡ (if b then some (width_at x r) else lookup k s.widths)
    forget true = refl
    forget false = refl

width_at_low : (x : ℤ) (r : ResizeState) → min_column_width ≤ width_at x r
unfolding width_at
width_at_low x r = omega arith

width_at_high :
    (x : ℤ) (r : ResizeState) (hi : ℕ)
    → r.max_width ≡ some hi
    → width_at x r ≤ max min_column_width hi
unfolding width_at
width_at_high x r hi h = rw h (omega arith)

-- Let a column with a greatest width be dragged over any places, and last over x. The widths are
-- those of a drag to x at once, so no rounding adds up; the column's is at least 40 and at most its
-- greatest width or 40; and no other column's width changes.
pub drag_lem :
    (column : GridColumnDef) (start_x x : ℤ) (xs : List ℤ) (s : SizingState) (hi : ℕ) (k : Text)
    → column.max_width ≡ some hi
    → same column.id k ≡ false
    → let t = start_resize column start_x s in
      let after = (drag (xs ++ x ∷ []) t).widths in
      (lookup k after ≡ lookup k s.widths)
      × ((w : ℕ) × (lookup column.id after ≡ some w)
          × (lookup column.id (drag (x ∷ []) t).widths ≡ some w)
          × (min_column_width ≤ w)
          × (w ≤ max min_column_width hi))
unfolding start_resize
drag_lem column start_x x xs s hi k bounded other =
    let t = start_resize column start_x s in
    let r : ResizeState = record {
      column_id = column.id;
      start_x = start_x;
      start_width = or_else (lookup column.id s.widths) (or_else column.width default_column_width);
      min_width = column.min_width;
      max_width = column.max_width;
    } in
    (
      lookup-drag xs x r t k refl ∙ rw other refl,
      (
        width_at x r,
        lookup-drag xs x r t column.id refl ∙ rw (same_refl column.id) refl,
        lookup-drag [] x r t column.id refl ∙ rw (same_refl column.id) refl,
        width_at_low x r,
        width_at_high x r hi bounded,
      ),
    )
