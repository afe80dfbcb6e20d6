-- ===== src/TableTab/Selection.antt =====
-- The selected rows of frontend/src/workbench/tabs/TableTab/state/useTableTabStore.ts.
use vaultsql.Prelude.{
  ℕ, zero, suc, ◌+◌, true, false, not, List, ◌∷◌, ◌++◌, [], ◌≡◌, refl, arith, keep, has, ◌==◌,
  if◌then◌else◌, ◌∙◌, Bool-cases, inl, inr, ltb, leb, ◌&&◌,
}
use vaultsql.TableTab.State.{TableTabState, QueryResponse}
use vaultsql.TableTab.Actions.{
  toggle_row_selection, select_all_rows, set_data_success, toggle, count_up, apply,
}

has-keep-not :
    (i j : ℕ) (l : List ℕ)
    → has j (keep (λ k. not (k == i)) l) ≡ (if i == j then false else has j l)
has-keep-not i j [] = ground arith
has-keep-not i j (k ∷ l) = let hyp = has-keep-not i j l in ground (arith, hyp)

has-append_one : (i j : ℕ) (l : List ℕ) → has j (l ++ i ∷ []) ≡ (if i == j then true else has j l)
has-append_one i j [] = ground arith
has-append_one i j (k ∷ l) = let hyp = has-append_one i j l in ground (arith, hyp)

has-toggle :
    (i j : ℕ) (selected : List ℕ)
    → has j (toggle i selected) ≡ (if i == j then not (has i selected) else has j selected)
unfolding toggle
has-toggle i j l = elim (Bool-cases (has i l)) [
  | inl there ↦ rw there (has-keep-not i j l)
  | inr gone ↦ rw gone (has-append_one i j l)
]

has-count_up : (i n j : ℕ) → has j (count_up i n) ≡ (leb i j && ltb j (i + n))
unfolding count_up
has-count_up i zero j = ground arith
has-count_up i (suc n) j = let hyp = has-count_up (suc i) n j in ground (arith, hyp)

from_zero : (n j : ℕ) → (leb 0 j && ltb j (0 + n)) ≡ ltb j n
from_zero n j = ground arith

-- Toggling row i selects it if it was not selected and else takes it out, and leaves every other row
-- as it was; selecting all of n rows selects exactly those below n; a new result selects none.
pub apply-selected :
    (i n j : ℕ) (result : QueryResponse) (s : TableTabState)
    → (has j (apply (toggle_row_selection i) s).selected
        ≡ (if i == j then not (has i s.selected) else has j s.selected))
      × (has j (apply (select_all_rows n) s).selected ≡ ltb j n)
      × (has j (apply (set_data_success result) s).selected ≡ false)
unfolding apply
apply-selected i n j result s =
    (has-toggle i j s.selected, has-count_up 0 n j ∙ from_zero n j, refl)
