-- ===== src/Editing/Deleted.antt =====
-- What the queue and the grid have after the selected rows have been deleted
-- (frontend/src/workbench/tabs/TableTab/components/toolbars/TableToolbar.tsx).
use vaultsql.Prelude.{
  ℕ, Bool, true, false, ◌&&◌, truthy, ◌||◌, List, [], ◌∷◌, ◌++◌, map, append-nil, Option, none,
  some, ◌≡◌, refl, ap, ◌∙◌, sym, inl, inr, arith, Text, same, same_refl, same_sound, same_comm, any,
  get_elem?, Bool-cases, if◌then◌else◌,
}
use vaultsql.Database.Mutations.{Value}
use vaultsql.TableTab.State.{Row}
use vaultsql.Queue.Entries.{
  Payload, delete_row, MutationEntry, create_target, act, create_mutation_entry,
}
use vaultsql.Editing.Pending.{
  to_string, is_nullish, cell, add_key, pks_with, pks_from, get_pending_delete_pks,
  is_pending_delete,
}
use vaultsql.Editing.Handlers.{
  EditedTable, Stores, Stamp, primary_key_column, queue_with_pin, handle_delete_selected_rows,
  delete_rows, delete_row_of,
}

pks_from-append :
    (target : Text) (entries : List MutationEntry) (e : MutationEntry) (keys : List Text)
    → pks_from target (entries ++ e ∷ []) keys
      ≡ pks_with (same e.target target) e.payload (pks_from target entries keys)
pks_from-append target [] e keys = refl
pks_from-append target (entry ∷ entries) e keys = pks_from-append target entries e _

any-append :
    (p : Text → Bool) (xs : List Text) (x : Text) → any p (xs ++ x ∷ []) ≡ (any p xs || p x)
any-append p [] x = ground arith
any-append p (y ∷ xs) x = ground (arith, any-append p xs x)

any-same : (key k : Text) (keys : List Text) → k ≡ key → any (same k) keys ≡ any (same key) keys
any-same key k keys e = ap (λ x. any (same x) keys) e

-- A set has the keys that it had, and the one added.
any-add_key :
    (key k : Text) (keys : List Text)
    → any (same key) (add_key k keys) ≡ (any (same key) keys || same k key)
any-add_key key k keys = elim (Bool-cases (any (same k) keys)) [
  | inl there ↦ rw there (elim (Bool-cases (same k key)) [
    | inl e ↦
        let here = sym (any-same key k keys (same_sound k key e)) ∙ there in ground (arith, here, e)
    | inr e ↦ ground (arith, e)
  ])
  | inr absent ↦
      rw absent
        (any-append (same key) keys k ∙ ap (λ b. any (same key) keys || b) (same_comm key k))
]

-- The keys of the rows at these places that have one.
abbrev pub key_at : Text → Option Row → List Value → List Value
key_at pk none keys = keys
key_at pk (some row) keys = if is_nullish (cell row pk) then keys else cell row pk ∷ keys

abbrev pub keys_of : Text → List Row → List ℕ → List Value
keys_of pk rows [] = []
keys_of pk rows (index ∷ indices) = key_at pk (get_elem? rows index) (keys_of pk rows indices)

-- What an entry changes, and where.
abbrev pub changes : List MutationEntry → List (Text × Payload)
changes entries = map (λ e. (e.target, e.payload)) entries

abbrev pub deletions : EditedTable → Text → List Value → List (Text × Payload)
deletions t pk values =
    map (λ v. (create_target t.schema t.table, delete_row (record { column = pk; value = v })))
      values

pub changes-append :
    (entries : List MutationEntry) (e : MutationEntry) (later : List (Text × Payload))
    → changes (entries ++ e ∷ []) ++ later ≡ changes entries ++ (e.target, e.payload) ∷ later
changes-append [] e later = refl
changes-append (entry ∷ entries) e later =
    ap (λ xs. (entry.target, entry.payload) ∷ xs) (changes-append entries e later)

changes-delete_row_of :
    (t : EditedTable) (pk : Text) (stamp : Stamp) (o : Option Row) (rest : List Value) (s : Stores)
    → changes (delete_row_of t pk stamp o s).entries ++ deletions t pk rest
      ≡ changes s.entries ++ deletions t pk (key_at pk o rest)
unfolding queue_with_pin act create_mutation_entry
changes-delete_row_of t pk stamp none rest s = refl
changes-delete_row_of t pk stamp (some row) rest s = elim (Bool-cases (is_nullish (cell row pk))) [
  | inl e ↦ rw e refl
  | inr e ↦ rw e (changes-append s.entries _ (deletions t pk rest))
]

changes-delete_rows :
    (t : EditedTable) (pk : Text) (stamps : ℕ → Stamp) (rows : List Row) (indices : List ℕ)
    (s : Stores)
    → changes (delete_rows t pk stamps rows indices s).entries
      ≡ changes s.entries ++ deletions t pk (keys_of pk rows indices)
unfolding delete_rows
changes-delete_rows t pk stamps rows [] s = sym (append-nil (changes s.entries))
changes-delete_rows t pk stamps rows (index ∷ indices) s =
    changes-delete_rows t pk stamps rows indices _
    ∙ changes-delete_row_of t pk (stamps index) (get_elem? rows index) (keys_of pk rows indices) s

-- A row whose key is there and reads as this one.
abbrev pub is_keyed : Text → Text → Option Row → Bool
is_keyed pk key none = false
is_keyed pk key (some row) =
    if is_nullish (cell row pk) then false else same (to_string (cell row pk)) key

marks-delete_row_of :
    (t : EditedTable) (pk key : Text) (stamp : Stamp) (o : Option Row) (s : Stores)
    → any
        (same key)
        (get_pending_delete_pks (delete_row_of t pk stamp o s).entries t.schema t.table)
      ≡ (any (same key) (get_pending_delete_pks s.entries t.schema t.table) || is_keyed pk key o)
unfolding queue_with_pin act create_mutation_entry get_pending_delete_pks
marks-delete_row_of t pk key stamp none s = ground arith
marks-delete_row_of t pk key stamp (some row) s = elim (Bool-cases (is_nullish (cell row pk))) [
  | inl e ↦ rw e (ground arith)
  | inr e ↦
      let target = create_target t.schema t.table in
      rw e (
        ap (any (same key)) (pks_from-append target s.entries _ [])
        ∙ rw (same_refl target) (any-add_key key (to_string (cell row pk)) _))
]

marks-delete_rows :
    (t : EditedTable) (pk key : Text) (stamps : ℕ → Stamp) (rows : List Row) (indices : List ℕ)
    (s : Stores)
    → any
        (same key)
        (get_pending_delete_pks (delete_rows t pk stamps rows indices s).entries t.schema t.table)
      ≡ (any (same key) (get_pending_delete_pks s.entries t.schema t.table)
          || any (λ i. is_keyed pk key (get_elem? rows i)) indices)
unfolding delete_rows
marks-delete_rows t pk key stamps rows [] s = ground arith
marks-delete_rows t pk key stamps rows (index ∷ indices) s =
    let s' = delete_row_of t pk (stamps index) (get_elem? rows index) s in
    let later = marks-delete_rows t pk key stamps rows indices s' in
    let now = marks-delete_row_of t pk key (stamps index) (get_elem? rows index) s in
    ground (arith, later, now)

-- The mark of a row, by the set of keys.
is_pending_delete-key :
    (pk : Text) (keys : List Text) (row : Row)
    → is_pending_delete (some pk) keys row
      ≡ (truthy (to_string (cell row pk)) && any (same (to_string (cell row pk))) keys)
unfolding is_pending_delete
is_pending_delete-key pk keys row = elim (Bool-cases (truthy (to_string (cell row pk)))) [
  | inl e ↦ rw e refl
  | inr e ↦ rw e refl
]

is_pending_delete-delete_rows :
    (t : EditedTable) (pk : Text) (stamps : ℕ → Stamp) (rows : List Row) (indices : List ℕ)
    (s : Stores) (row : Row)
    → let key = to_string (cell row pk) in
      let s' = delete_rows t pk stamps rows indices s in
      is_pending_delete (some pk) (get_pending_delete_pks s'.entries t.schema t.table) row ≡ (
        is_pending_delete (some pk) (get_pending_delete_pks s.entries t.schema t.table) row
        || (truthy key && any (λ i. is_keyed pk key (get_elem? rows i)) indices))
is_pending_delete-delete_rows t pk stamps rows indices s row =
    let key = to_string (cell row pk) in
    is_pending_delete-key pk _ row
    ∙ (ap (λ b. truthy key && b) (marks-delete_rows t pk key stamps rows indices s)
        ∙ (and_or (truthy key) _ _
            ∙ ap (λ b. b || (truthy key && any (λ i. is_keyed pk key (get_elem? rows i)) indices))
                (sym (is_pending_delete-key pk _ row))))
  where
    and_or : (a b c : Bool) → (a && (b || c)) ≡ ((a && b) || (a && c))
    and_or true b c = refl
    and_or false b c = refl

-- The selected rows of a table with a primary key are deleted: behind the changes that are queued
-- there is one deletion for each of them that is there and has a key, in the order of the
-- selection, and nothing is selected any more. A row is marked as deleted then if it was marked, or
-- if its key reads as that of a selected row that has one, and as a text that is not empty.
pub handle_delete_selected_rows_lem :
    (t : EditedTable) (stamps : ℕ → Stamp) (rows : List Row) (s : Stores) (pk : Text)
    → primary_key_column t.columns ≡ some pk
    → let s' = handle_delete_selected_rows t stamps rows s in
      (changes s'.entries ≡ changes s.entries ++ deletions t pk (keys_of pk rows s.selected))
      × (s'.selected ≡ [])
      × ((row : Row)
          → is_pending_delete (some pk) (get_pending_delete_pks s'.entries t.schema t.table) row ≡ (
              is_pending_delete (some pk) (get_pending_delete_pks s.entries t.schema t.table) row
              || (truthy (to_string (cell row pk))
                  && any
                      (λ i. is_keyed pk (to_string (cell row pk)) (get_elem? rows i))
                      s.selected)))
unfolding handle_delete_selected_rows
handle_delete_selected_rows_lem t stamps rows s pk keyed =
    rw (keyed, handle_delete_selected_rows)
      (
        changes-delete_rows t pk stamps rows s.selected s,
        refl,
        (λ row. is_pending_delete-delete_rows t pk stamps rows s.selected s row),
      )
