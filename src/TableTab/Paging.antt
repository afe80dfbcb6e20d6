-- ===== src/TableTab/Paging.antt =====
-- The handlers of PaginationBar.tsx, PaginationPopover.tsx and LimitOffsetPopover.tsx
-- (frontend/src/workbench/tabs/TableTab/components) over the store of the tab. What parseInt reads
-- of the texts typed is an argument, none for NaN. A disabled button does nothing.
use vaultsql.Prelude.{
  ℕ, zero, suc, Bool, true, false, not, ◌&&◌, ◌+◌, ◌-◌, ◌/◌, min, Option, none, some, ℤ, pos,
  negsuc, ltb, leb, if◌then◌else◌,
}
use vaultsql.TableTab.State.{TableTabState, PaginationState, LimitOffset}
use vaultsql.TableTab.Actions.{apply, set_page, set_page_size, set_limit_offset}

abbrev pub max_limit : ℕ
max_limit = 500

-- The negative of a number.
abbrev negative : ℕ → ℤ
negative zero = pos 0
negative (suc n) = negsuc n

-- `Math.ceil(rows / size)`
abbrev pub ceil_div : ℤ → ℕ → ℤ
ceil_div (pos n) size = pos ((n + (size - 1)) / size)
ceil_div (negsuc n) size = negative (suc n / size)

-- `totalRowCount ? Math.ceil(totalRowCount / pageSize) : null`
unfoldable pub total_pages : PaginationState → Option ℤ
total_pages p = elim p.total_row_count [
  | none ↦ none
  | some (pos zero) ↦ none
  | some rows ↦ some (ceil_div rows p.page_size)
]

-- `currentPage < pages - 1`
abbrev pub before_last : ℕ → ℤ → Bool
before_last current (pos n) = ltb (suc current) n
before_last current (negsuc n) = false

-- Where the number of pages is not known, or 0, a full page has a next one.
abbrev pub has_next : Option ℤ → ℕ → PaginationState → Bool
has_next none row_count p = leb p.page_size row_count
has_next (some (pos zero)) row_count p = leb p.page_size row_count
has_next (some pages) row_count p = before_last p.current_page pages

abbrev pub is_limit_mode : Option LimitOffset → Bool
is_limit_mode none = false
is_limit_mode (some l) = true

-- `Math.min(target, pages - 1)`
abbrev pub last_or : ℕ → ℤ → ℤ
last_or target (pos zero) = negsuc 0
last_or target (pos (suc n)) = pos (min target n)
last_or target (negsuc n) = negsuc (suc n)

abbrev pub jump : ℕ → Option ℤ → ℤ
jump target none = pos target
jump target (some pages) = last_or target pages

-- The user's clicks, with what is read of the texts; a row count is that of the rows shown.
pub data PagingStep : Type 0 where
  prev_page : PagingStep
  next_page : ℕ → PagingStep
  jump_to : Option ℤ → PagingStep
  page_size_change : ℤ → PagingStep
  apply_limit : Option ℤ → Option ℤ → PagingStep
  clear_limit : PagingStep

unfoldable pub handle_prev_page : TableTabState → TableTabState
unfolding apply
handle_prev_page s =
    let p = s.pagination in
    if ltb 0 p.current_page && not (is_limit_mode p.limit_offset)
    then apply (set_page (pos (p.current_page - 1))) s
    else s

unfoldable pub handle_next_page : ℕ → TableTabState → TableTabState
unfolding apply total_pages
handle_next_page row_count s =
    let p = s.pagination in
    if has_next (total_pages p) row_count p && not (is_limit_mode p.limit_offset)
    then apply (set_page (pos (suc p.current_page))) s
    else s

unfoldable pub handle_jump : Option ℤ → TableTabState → TableTabState
unfolding apply total_pages
handle_jump (some (pos (suc n))) s = apply (set_page (jump n (total_pages s.pagination))) s
handle_jump _ s = s

unfoldable pub handle_apply_limit : Option ℤ → Option ℤ → TableTabState → TableTabState
unfolding apply
handle_apply_limit (some (pos (suc n))) (some (pos m)) s =
    apply (set_limit_offset (some (record { limit = pos (min (suc n) max_limit); offset = pos m })))
      s
handle_apply_limit _ _ s = s

unfoldable pub paging_step : PagingStep → TableTabState → TableTabState
unfolding apply handle_prev_page handle_next_page handle_jump handle_apply_limit
paging_step prev_page s = handle_prev_page s
paging_step (next_page row_count) s = handle_next_page row_count s
paging_step (jump_to n) s = handle_jump n s
paging_step (page_size_change size) s = apply (set_page_size size) s
paging_step (apply_limit limit offset) s = handle_apply_limit limit offset s
paging_step clear_limit s = apply (set_limit_offset none) s
