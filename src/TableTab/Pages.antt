-- ===== src/TableTab/Pages.antt =====
-- The pages that a user can turn to
-- (frontend/src/workbench/tabs/TableTab/components/{PaginationBar,PaginationPopover}.tsx).
use vaultsql.Prelude.{
  ℕ, zero, suc, true, not, ◌&&◌, ◌+◌, ◌-◌, ◌*◌, ◌/◌, ◌≤◌, ◌<◌, min, List, [], ◌∷◌, Option, none,
  some, ◌≡◌, refl, ap, sym, ◌∙◌, subst, inl, inr, arith, ℤ, pos, negsuc, ltb, Bool-cases,
}
use native.Mathlib.Nat.{le-div_iff_mul-le, mul-le-mul_right}
use vaultsql.TableTab.State.{TableTabState, PaginationState, LimitOffset}
use vaultsql.TableTab.Actions.{
  apply, set_page, set_page_size, set_limit_offset, clamp_page_size, page_number,
}
use vaultsql.TableTab.Paging.{
  max_limit, total_pages, has_next, is_limit_mode, last_or, jump, PagingStep, handle_prev_page,
  handle_next_page, handle_jump, handle_apply_limit, prev_page, next_page, jump_to,
  page_size_change, apply_limit, clear_limit, paging_step,
}

-- The page has a row, if the rows are counted and there are any.
abbrev pub HasRow : Option ℤ → ℕ → ℕ → Type 0
HasRow none page size = Unit
HasRow (some (pos zero)) page size = Unit
HasRow (some (pos (suc n))) page size = page * size < suc n
HasRow (some (negsuc n)) page size = Unit

abbrev pub IsLimited : Option LimitOffset → Type 0
IsLimited none = Unit
IsLimited (some l) =
    (limit : ℕ) × (offset : ℕ) × (l.limit ≡ pos limit)
    × (l.offset ≡ pos offset)
    × (1 ≤ limit)
    × (limit ≤ max_limit)

pub record IsTurned (s : TableTabState) : Type 0 where
  pub size_low : 1 ≤ s.pagination.page_size
  pub size_high : s.pagination.page_size ≤ 500
  pub has_row : HasRow s.pagination.total_row_count s.pagination.current_page s.pagination.page_size
  pub limited : IsLimited s.pagination.limit_offset

-- A page before the number of pages has a row.
before_pages :
    (page size n : ℕ) → 1 ≤ size → page < (suc n + (size - 1)) / size → page * size < suc n
before_pages page size n low h =
    let bound : suc page * size ≤ suc n + (size - 1) =
      (le-div_iff_mul-le {k = size} {x = suc page} {y = suc n + (size - 1)} (omega (arith, low))).0
        (omega (arith, h)) in
    omega (arith, bound, low)

some_pages : (size n : ℕ) → 1 ≤ size → 0 < (suc n + (size - 1)) / size
some_pages size n low =
    (le-div_iff_mul-le {k = size} {x = 1} {y = suc n + (size - 1)} (omega (arith, low))).1
      (omega (arith, low))

set_page-IsTurned :
    (s : TableTabState) (page : ℤ)
    → IsTurned s
    → HasRow s.pagination.total_row_count (page_number page) s.pagination.page_size
    → IsTurned (apply (set_page page) s)
unfolding apply
set_page-IsTurned s page v h = record {
  size_low = v.size_low;
  size_high = v.size_high;
  has_row = h;
  limited = tt;
}

HasRow-sooner : (o : Option ℤ) (j k size : ℕ) → j ≤ k → HasRow o k size → HasRow o j size
HasRow-sooner none j k size le h = tt
HasRow-sooner (some (pos zero)) j k size le h = tt
HasRow-sooner (some (pos (suc n))) j k size le h =
    let less : j * size ≤ k * size = mul-le-mul_right size le in omega (arith, less, h)
HasRow-sooner (some (negsuc n)) j k size le h = tt

handle_prev_page-IsTurned : (s : TableTabState) → IsTurned s → IsTurned (handle_prev_page s)
unfolding handle_prev_page
handle_prev_page-IsTurned s v =
    elim (Bool-cases
      (ltb 0 s.pagination.current_page && not (is_limit_mode s.pagination.limit_offset))) [
        | inl e ↦ rw e (
            set_page-IsTurned s (pos (s.pagination.current_page - 1)) v (
              HasRow-sooner _ (s.pagination.current_page - 1) s.pagination.current_page _
                (omega arith) v.has_row))
        | inr e ↦ rw e v
      ]

next_before :
    (pages row_count : ℕ) (p : PaginationState)
    → 0 < pages
    → has_next (some (pos pages)) row_count p ≡ true
    → suc p.current_page < pages
next_before zero row_count p some_page h = omega (arith, some_page)
next_before (suc n) row_count p some_page h = ground (arith, h)

jump_before : (target pages : ℕ) → 0 < pages → page_number (last_or target (pos pages)) < pages
unfolding page_number
jump_before target zero some_page = omega (arith, some_page)
jump_before target (suc n) some_page = omega arith

next-HasRow :
    (o : Option ℤ) (p : PaginationState) (row_count : ℕ)
    → p.total_row_count ≡ o
    → 1 ≤ p.page_size
    → has_next (total_pages p) row_count p ≡ true
    → HasRow o (suc p.current_page) p.page_size
unfolding total_pages
next-HasRow none p row_count e low h = tt
next-HasRow (some (pos zero)) p row_count e low h = tt
next-HasRow (some (pos (suc n))) p row_count e low h =
    let pages = (suc n + (p.page_size - 1)) / p.page_size in
    let known : total_pages p ≡ some (pos pages) = rw (e, total_pages) refl in
    before_pages (suc p.current_page) p.page_size n low (
      next_before pages row_count p (some_pages p.page_size n low)
        (ap (λ o. has_next o row_count p) (sym known) ∙ h))
next-HasRow (some (negsuc n)) p row_count e low h = tt

jump-HasRow :
    (o : Option ℤ) (p : PaginationState) (target : ℕ)
    → p.total_row_count ≡ o
    → 1 ≤ p.page_size
    → HasRow o (page_number (jump target (total_pages p))) p.page_size
unfolding total_pages page_number
jump-HasRow none p target e low = tt
jump-HasRow (some (pos zero)) p target e low = tt
jump-HasRow (some (pos (suc n))) p target e low =
    let pages = (suc n + (p.page_size - 1)) / p.page_size in
    let known : total_pages p ≡ some (pos pages) = rw (e, total_pages) refl in
    subst (λ o. page_number (jump target o) * p.page_size < suc n) (sym known)
      (before_pages _ p.page_size n low (jump_before target pages (some_pages p.page_size n low)))
jump-HasRow (some (negsuc n)) p target e low = tt

handle_next_page-IsTurned :
    (row_count : ℕ) (s : TableTabState) → IsTurned s → IsTurned (handle_next_page row_count s)
unfolding handle_next_page
handle_next_page-IsTurned row_count s v =
    let p = s.pagination in
    elim (Bool-cases (has_next (total_pages p) row_count p)) [
      | inl e ↦ elim (Bool-cases (is_limit_mode p.limit_offset)) [
        | inl m ↦ rw (e, m) v
        | inr m ↦
            rw (e, m)
              (set_page-IsTurned s (pos (suc p.current_page)) v
                (next-HasRow p.total_row_count p row_count refl v.size_low e))
      ]
      | inr e ↦ rw e v
    ]

handle_jump-IsTurned : (n : Option ℤ) (s : TableTabState) → IsTurned s → IsTurned (handle_jump n s)
unfolding handle_jump
handle_jump-IsTurned none s v = v
handle_jump-IsTurned (some (pos zero)) s v = v
handle_jump-IsTurned (some (pos (suc n))) s v =
    set_page-IsTurned s (jump n (total_pages s.pagination)) v
      (jump-HasRow s.pagination.total_row_count s.pagination n refl v.size_low)
handle_jump-IsTurned (some (negsuc n)) s v = v

first-HasRow : (o : Option ℤ) (size : ℕ) → HasRow o 0 size
first-HasRow none size = tt
first-HasRow (some (pos zero)) size = tt
first-HasRow (some (pos (suc n))) size = omega arith
first-HasRow (some (negsuc n)) size = tt

limit-IsTurned :
    (l : Option LimitOffset) (s : TableTabState)
    → IsLimited l
    → IsTurned s
    → IsTurned (apply (set_limit_offset l) s)
unfolding apply
limit-IsTurned l s h v = record {
  size_low = v.size_low;
  size_high = v.size_high;
  has_row = first-HasRow s.pagination.total_row_count s.pagination.page_size;
  limited = h;
}

handle_apply_limit-IsTurned :
    (limit offset : Option ℤ) (s : TableTabState)
    → IsTurned s
    → IsTurned (handle_apply_limit limit offset s)
unfolding handle_apply_limit
handle_apply_limit-IsTurned none offset s v = v
handle_apply_limit-IsTurned (some (pos zero)) offset s v = v
handle_apply_limit-IsTurned (some (pos (suc n))) none s v = v
handle_apply_limit-IsTurned (some (pos (suc n))) (some (pos m)) s v =
    limit-IsTurned _ s (min (suc n) max_limit, m, refl, refl, omega arith, omega arith) v
handle_apply_limit-IsTurned (some (pos (suc n))) (some (negsuc m)) s v = v
handle_apply_limit-IsTurned (some (negsuc n)) offset s v = v

size-IsTurned :
    (size : ℤ) (s : TableTabState) → IsTurned s → IsTurned (apply (set_page_size size) s)
unfolding apply clamp_page_size
size-IsTurned (pos n) s v = record {
  size_low = omega arith;
  size_high = omega arith;
  has_row = first-HasRow s.pagination.total_row_count (clamp_page_size (pos n));
  limited = tt;
}
size-IsTurned (negsuc n) s v = record {
  size_low = omega arith;
  size_high = omega arith;
  has_row = first-HasRow s.pagination.total_row_count (clamp_page_size (negsuc n));
  limited = tt;
}

paging_step-IsTurned :
    (a : PagingStep) (s : TableTabState) → IsTurned s → IsTurned (paging_step a s)
unfolding paging_step
paging_step-IsTurned prev_page s v = handle_prev_page-IsTurned s v
paging_step-IsTurned (next_page row_count) s v = handle_next_page-IsTurned row_count s v
paging_step-IsTurned (jump_to n) s v = handle_jump-IsTurned n s v
paging_step-IsTurned (page_size_change size) s v = size-IsTurned size s v
paging_step-IsTurned (apply_limit limit offset) s v = handle_apply_limit-IsTurned limit offset s v
paging_step-IsTurned clear_limit s v = limit-IsTurned none s tt v

abbrev pub paging_steps : List PagingStep → TableTabState → TableTabState
paging_steps [] s = s
paging_steps (a ∷ steps) s = paging_steps steps (paging_step a s)

-- From a state in which it is so, whatever pages, page sizes and limits the user chooses: while the
-- number of rows is known to be positive, the page that is shown has a row; a page holds 1 to 500
-- rows; and a manual limit is from 1 to 500, with an offset that is not negative.
pub paging_steps-IsTurned :
    (steps : List PagingStep) (s : TableTabState) → IsTurned s → IsTurned (paging_steps steps s)
paging_steps-IsTurned [] s v = v
paging_steps-IsTurned (a ∷ steps) s v = paging_steps-IsTurned steps _ (paging_step-IsTurned a s v)
