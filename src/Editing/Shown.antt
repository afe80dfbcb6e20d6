-- ===== src/Editing/Shown.antt =====
-- The grid (frontend/src/workbench/tabs/TableTab/components/grid/TableDataGrid.tsx) shows the rows
-- as the queued changes will leave them.
use vaultsql.Prelude.{
  Bool, true, false, List, [], ◌∷◌, Option, none, some, ◌≡◌, refl, ap, ◌∙◌, sym, inl, inr, Text,
  same, truthy, same_sound, lookup, insert, lookup-insert, or_else, Bool-cases, if◌then◌else◌,
}
use vaultsql.Database.Mutations.{Value, null, MutationColumnValue}
use vaultsql.TableTab.State.{Row}
use vaultsql.Queue.Entries.{
  Payload, insert_row, update_row, delete_row, add_column, drop_column, MutationEntry,
  create_target,
}
use vaultsql.Editing.Pending.{
  to_string, is_nullish, cell, new_value, set_all, add_edits, with_entry, edits_from, with_payload,
  get_pending_update_edits, edited, get_display_value, drawn_value,
}

-- The value of a cell after an update of its row has set these columns, one by one.
abbrev pub assigned : List MutationColumnValue → Text → Value → Value
assigned [] c v = v
assigned (mv ∷ values) c v =
    assigned values c (if same mv.column c then (if mv.is_null then null else mv.value) else v)

-- The value of a cell of the row with this key after a change, if it is an update of that row.
abbrev pub updated : Bool → Text → Payload → Text → Value → Value
updated true key (update_row values primary_key) c v =
    if same (to_string primary_key.value) key then assigned values c v else v
updated _ key _ c v = v

-- The value of a cell after the queued updates of its row, in order.
abbrev pub replayed : Text → Text → List MutationEntry → Text → Value → Value
replayed target key [] c v = v
replayed target key (entry ∷ entries) c v =
    replayed target key entries c (updated (same entry.target target) key entry.payload c v)

or_else-lookup :
    (c k : Text) (v d : Value) (m : Row)
    → or_else (lookup c (insert k v m)) d ≡ (if same k c then v else or_else (lookup c m) d)
or_else-lookup c k v d m =
    ap (λ o. or_else o d) (lookup-insert c k v m)
    ∙ elim (Bool-cases (same k c)) [ inl e ↦ rw e refl | inr e ↦ rw e refl ]

-- Edits that show a value show, after more columns have been set in them, what these make of it.
edited-set_all :
    (values : List MutationColumnValue) (edits row : Row) (c : Text) (now : Value)
    → edited (some edits) row c ≡ now
    → edited (some (set_all values edits)) row c ≡ assigned values c now
unfolding set_all
edited-set_all [] edits row c now h = h
edited-set_all (mv ∷ values) edits row c now h =
    edited-set_all values (insert mv.column (new_value mv) edits) row c _ (
      or_else-lookup c mv.column (new_value mv) (cell row c) edits
      ∙ ap (λ v. if same mv.column c then new_value mv else v) h)

edited_none :
    (o : Option Row) (row : Row) (c : Text) → edited o row c ≡ edited (some (or_else o [])) row c
edited_none none row c = refl
edited_none (some e) row c = refl

edited-add_edits :
    (key k : Text) (values : List MutationColumnValue) (edits : List (Text × Row)) (row : Row)
    (c : Text) (now : Value)
    → edited (lookup key edits) row c ≡ now
    → edited (lookup key (add_edits values k edits)) row c
      ≡ (if same k key then assigned values c now else now)
edited-add_edits key k values edits row c now h =
    ap (λ o. edited o row c) (lookup-insert key k _ edits) ∙ elim (Bool-cases (same k key)) [
      | inl e ↦
          let twin = ap (λ x. lookup x edits) (same_sound k key e) in
          rw e (
            edited-set_all values (or_else (lookup k edits) []) row c now (
              ap (λ o. edited (some (or_else o [])) row c) twin
              ∙ (sym (edited_none (lookup key edits) row c) ∙ h)))
      | inr e ↦ rw e h
    ]

edited-with_payload :
    (aimed : Bool) (key : Text) (payload : Payload) (edits : List (Text × Row)) (row : Row)
    (c : Text) (now : Value)
    → edited (lookup key edits) row c ≡ now
    → edited (lookup key (with_payload aimed payload edits)) row c ≡ updated aimed key payload c now
edited-with_payload true key (update_row values primary_key) edits row c now h =
    edited-add_edits key (to_string primary_key.value) values edits row c now h
edited-with_payload true key (insert_row values) edits row c now h = h
edited-with_payload true key (delete_row primary_key) edits row c now h = h
edited-with_payload true key (add_column column) edits row c now h = h
edited-with_payload true key (drop_column column cascade) edits row c now h = h
edited-with_payload false key payload edits row c now h = h

edited-edits_from :
    (target key : Text) (entries : List MutationEntry) (edits : List (Text × Row)) (row : Row)
    (c : Text) (now : Value)
    → edited (lookup key edits) row c ≡ now
    → edited (lookup key (edits_from target entries edits)) row c
      ≡ replayed target key entries c now
unfolding with_entry
edited-edits_from target key [] edits row c now h = h
edited-edits_from target key (entry ∷ entries) edits row c now h =
    edited-edits_from target key entries (with_entry target entry edits) row c _
      (edited-with_payload (same entry.target target) key entry.payload edits row c now h)

-- What the menus and the editor take for the value of a cell of a row that has a primary key: each
-- queued update of this row sets all its columns.
pub get_display_value_lem :
    (entries : List MutationEntry) (schema table pk : Text) (row : Row) (column : Text)
    → is_nullish (cell row pk) ≡ false
    → get_display_value (some pk) (get_pending_update_edits entries schema table) row column
      ≡ replayed
          (create_target schema table)
          (to_string (cell row pk))
          entries
          column
          (cell row column)
unfolding get_display_value get_pending_update_edits create_target
get_display_value_lem entries schema table pk row column there =
    rw there (edited-edits_from _ (to_string (cell row pk)) entries [] row column _ refl)

-- The same of the value that the cell is drawn with, if the key reads as a text that is not empty.
pub drawn_value-replayed :
    (entries : List MutationEntry) (schema table pk : Text) (row : Row) (column : Text)
    → let key = to_string (cell row pk) in
      drawn_value (some pk) (get_pending_update_edits entries schema table) row column ≡ (
        if truthy key
        then replayed (create_target schema table) key entries column (cell row column)
        else cell row column)
unfolding drawn_value get_pending_update_edits create_target
drawn_value-replayed entries schema table pk row column =
    let key = to_string (cell row pk) in
    elim (Bool-cases (truthy key)) [
      | inl e ↦ rw e (edited-edits_from _ key entries [] row column _ refl)
      | inr e ↦ rw e refl
    ]
