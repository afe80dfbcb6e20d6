-- ===== src/Editing/Entered.antt =====
-- What the dialog for a new row submits (AddRowDialog.tsx of
-- frontend/src/workbench/tabs/TableTab/components/dialogs).
use vaultsql.Prelude.{
  is_empty, Bool, true, false, ◌||◌, List, [], ◌∷◌, Option, none, some, ◌≡◌, refl, ap, ◌∙◌, sym,
  ◌⊎◌, inl, inr, arith, subst, Text, same, same_sound, same_refl, lookup, insert, lookup-insert,
  Unique, Unique-insert, first_of, Bool-cases, if◌then◌else◌,
}
use vaultsql.Database.Mutations.{Value, null}
use vaultsql.Database.Columns.{ColumnInfo}
use vaultsql.TableTab.State.{Row}
use vaultsql.Editing.Handlers.{is_named, has_column}
use vaultsql.Editing.AddRow.{
  ColumnValue, Runtime, visible_columns, Values, Change, Entered, skipped, thrown, entered, opened,
  change_all, shown_value, parsed, parse_value, entered_value, entered_for, submit_from,
  handle_submit,
}
use vaultsql.Editing.Form.{DistinctNames, DistinctNames-keep, HasValue, change_all-HasValue}

-- The entry of a column that the form has, as a value if there is one.
abbrev pub value_of : Entered → Option Value
value_of skipped = none
value_of thrown = none
value_of (entered v) = some v

abbrev pub is_thrown : Entered → Bool
is_thrown skipped = false
is_thrown thrown = true
is_thrown (entered v) = false

-- What a column enters, by its flags for the default and NULL, whether its text is empty, whether it
-- can be NULL, and what its text is read as.
abbrev pub meant : Bool → Bool → Bool → Bool → Entered → Entered
meant true _ _ _ e = skipped
meant false true _ _ e = entered null
meant false false true true e = entered null
meant false false true false e = skipped
meant false false false _ e = e

module _ (r : Runtime) (values : Values) where
  abbrev pub entry_for : ColumnInfo → Entered
  entry_for col =
      let v = shown_value col.name values in
      meant v.use_default v.is_null (is_empty v.value) col.nullable
        (parsed (parse_value r v.value col))

  abbrev pub entry_in : Text → List ColumnInfo → Option Value
  entry_in name [] = none
  entry_in name (col ∷ cols) =
      if is_named name col then value_of (entry_for col) else entry_in name cols

  abbrev pub any_thrown : List ColumnInfo → Bool
  any_thrown [] = false
  any_thrown (col ∷ cols) = is_thrown (entry_for col) || any_thrown cols

  -- A result that has the entries of these columns, besides what it had.
  pub record Submitted (cols : List ColumnInfo) (before result : Row) : Type 0 where
    pub none_thrown : any_thrown cols ≡ false
    pub unique : Unique result
    pub found :
        (name : Text) → lookup name result ≡ first_of (entry_in name cols) (lookup name before)

  pub entry_in-none :
      (name : Text) (cols : List ColumnInfo)
      → has_column name cols ≡ false
      → entry_in name cols ≡ none
  entry_in-none name [] h = refl
  entry_in-none name (col ∷ cols) h = ground (arith, h, entry_in-none name cols)

  Submitted-skip :
      (col : ColumnInfo) (cols : List ColumnInfo) (before result : Row)
      → has_column col.name cols ≡ false
      → entry_for col ≡ skipped
      → Submitted cols before result
      → Submitted (col ∷ cols) before result
  Submitted-skip col cols before result fresh e h = record {
    none_thrown = rw e h.none_thrown;
    unique = h.unique;
    found = λ name. elim (Bool-cases (same col.name name)) [
      | inl hit ↦
          let gone =
            entry_in-none name cols
              (ap (λ n. has_column n cols) (sym (same_sound col.name name hit)) ∙ fresh) in
          h.found name ∙ rw (hit, e, gone) refl
      | inr miss ↦ h.found name ∙ rw miss refl
    ];
  }

  Submitted-enter :
      (col : ColumnInfo) (cols : List ColumnInfo) (before result : Row) (v : Value)
      → has_column col.name cols ≡ false
      → entry_for col ≡ entered v
      → Submitted cols (insert col.name v before) result
      → Submitted (col ∷ cols) before result
  Submitted-enter col cols before result v fresh e h = record {
    none_thrown = rw e h.none_thrown;
    unique = h.unique;
    found = λ name.
        h.found name
        ∙ (ap (first_of (entry_in name cols)) (lookup-insert name col.name v before)
            ∙ elim (Bool-cases (same col.name name)) [
              | inl hit ↦
                  let gone =
                    entry_in-none name cols
                      (ap (λ n. has_column n cols) (sym (same_sound col.name name hit)) ∙ fresh) in
                  rw (hit, e, gone) refl
              | inr miss ↦ rw miss refl
            ]);
  }

  -- How the loop over these columns ends.
  abbrev pub Ending : List ColumnInfo → Row → Option Row → Type 0
  Ending cols before o =
      ((any_thrown cols ≡ true) × (o ≡ none))
      ⊎ ((result : Row) × (o ≡ some result) × Submitted cols before result)

  entered_value_lem :
      (col : ColumnInfo) (v : ColumnValue)
      → entered_value r col v
        ≡ meant v.use_default v.is_null
            (is_empty v.value)
            col.nullable
            (parsed (parse_value r v.value col))
  unfolding entered_value
  entered_value_lem col v =
      flags v.use_default v.is_null (is_empty v.value) col.nullable
        (parsed (parse_value r v.value col))
    where
      flags :
          (d n m k : Bool) (e : Entered)
          → (if d
              then skipped
              else if n
              then entered null
              else if m
              then (if k then entered null else skipped)
              else e)
            ≡ meant d n m k e
      flags true n m k e = refl
      flags false true m k e = refl
      flags false false true true e = refl
      flags false false true false e = refl
      flags false false false k e = refl

  entered_for-entry_for :
      (col : ColumnInfo)
      → HasValue values col.name
      → entered_for r col (lookup col.name values) ≡ entry_for col
  entered_for-entry_for col (v, there, _) = rw there (entered_value_lem col v)

  Ending-skip :
      (col : ColumnInfo) (cols : List ColumnInfo) (before : Row) (o : Option Row)
      → has_column col.name cols ≡ false
      → entry_for col ≡ skipped
      → Ending cols before o
      → Ending (col ∷ cols) before o
  Ending-skip col cols before o fresh e (inl (t, lost)) = inl (rw e t, lost)
  Ending-skip col cols before o fresh e (inr (result, found, h)) =
      inr (result, found, Submitted-skip col cols before result fresh e h)

  Ending-enter :
      (col : ColumnInfo) (cols : List ColumnInfo) (before : Row) (o : Option Row) (v : Value)
      → has_column col.name cols ≡ false
      → entry_for col ≡ entered v
      → Ending cols (insert col.name v before) o
      → Ending (col ∷ cols) before o
  Ending-enter col cols before o v fresh e (inl (t, lost)) = inl (rw e t, lost)
  Ending-enter col cols before o v fresh e (inr (result, found, h)) =
      inr (result, found, Submitted-enter col cols before result v fresh e h)

  Ending-column :
      (col : ColumnInfo) (cols : List ColumnInfo) (before : Row)
      → has_column col.name cols ≡ false
      → ((now : Row) → Unique now → Ending cols now (submit_from r cols values now))
      → Unique before
      → entered_for r col (lookup col.name values) ≡ entry_for col
      → (e : Entered) → entry_for col ≡ e
      → Ending (col ∷ cols) before (submit_from r (col ∷ cols) values before)
  unfolding submit_from
  Ending-column col cols before fresh rest u h skipped e =
      let step : submit_from r (col ∷ cols) values before ≡ submit_from r cols values before =
        rw (h, e, submit_from) refl in
      subst (Ending (col ∷ cols) before) (sym step)
        (Ending-skip col cols before _ fresh e (rest before u))
  Ending-column col cols before fresh rest u h thrown e =
      inl (rw e refl, rw (h, e, submit_from) refl)
  Ending-column col cols before fresh rest u h (entered v) e =
      let now = insert col.name v before in
      let step : submit_from r (col ∷ cols) values before ≡ submit_from r cols values now =
        rw (h, e, submit_from) refl in
      subst (Ending (col ∷ cols) before) (sym step)
        (Ending-enter col cols before _ v fresh e (rest now (Unique-insert col.name v before u)))

  submit_from-Ending :
      (cols : List ColumnInfo) (before : Row)
      → DistinctNames cols
      → Unique before
      → ((name : Text) → has_column name cols ≡ true → HasValue values name)
      → Ending cols before (submit_from r cols values before)
  unfolding submit_from
  submit_from-Ending [] before d u ready =
      inr (before, refl, record { none_thrown = refl; unique = u; found = λ name. refl })
  submit_from-Ending (col ∷ cols) before (fresh, d) u ready =
      Ending-column col cols before fresh
        (λ now v. submit_from-Ending cols now d v (λ name h. ready name (ground (arith, h)))) u
        (entered_for-entry_for col (ready col.name (ground (arith, same_refl col.name))))
        (entry_for col) refl

-- The submission of a form that was opened and changed.
pub handle_submit-Ending :
    (r : Runtime) (columns : List ColumnInfo) (changes : List (Text × Change))
    → DistinctNames columns
    → let values = change_all changes (opened columns) in
      Ending r values (visible_columns columns) [] (handle_submit r columns values)
unfolding handle_submit
handle_submit-Ending r columns changes d =
    submit_from-Ending r _ (visible_columns columns) [] (DistinctNames-keep _ columns d) _
      (change_all-HasValue columns changes)
