-- ===== src/Database/Filters.antt =====
-- Column categories, filter operators and their configuration
-- (frontend/src/workbench/types/database.ts).
use vaultsql.Prelude.{
  Bool, true, false, List, [], ◌∷◌, Option, none, some, Text, codes, any, keep, find, map,
}

pub data ColumnCategory : Type 0 where
  text integer float boolean timestamp date time uuid json array other : ColumnCategory

pub data FilterOperator : Type 0 where
  eq neq gt gte lt lte contains icontains starts_with ends_with : FilterOperator
  is_null is_not_null in_list : FilterOperator

pub record FilterInput : Type 0 where
  pub column : Text
  pub operator : FilterOperator
  pub value : Text

-- A filter of the user interface has an id beside the stored part.
pub record Filter : Type 0 where
  pub input : FilterInput
  pub open input use *
  pub id : Text

pub data FilterMode : Type 0 where
  all_of any_of : FilterMode

pub hydrate_filter : Text → FilterInput → Filter
hydrate_filter new_id input = record { input = input; id = new_id }

-- The ids are those that `crypto.randomUUID` returns, one for each filter.
pub hydrate_filters : List (Text × FilterInput) → List Filter
unfolding hydrate_filter
hydrate_filters [] = []
hydrate_filters ((new_id, input) ∷ rest) = hydrate_filter new_id input ∷ hydrate_filters rest

unfoldable pub to_filter_inputs : List Filter → List FilterInput
to_filter_inputs = map (λ f. f.input)

pub record OperatorConfig : Type 0 where
  pub operator : FilterOperator
  pub label : Text
  pub needs_value : Bool

abbrev config : FilterOperator → Text → Bool → OperatorConfig
config operator label needs_value = record {
  operator = operator;
  label = label;
  needs_value = needs_value;
}

abbrev pub filter_operators : List OperatorConfig
filter_operators =
    config eq (codes "=") true
    ∷ config neq (codes "!=") true
    ∷ config gt (codes ">") true
    ∷ config gte (codes ">=") true
    ∷ config lt (codes "<") true
    ∷ config lte (codes "<=") true
    ∷ config contains (codes "LIKE") true
    ∷ config icontains (codes "ILIKE") true
    ∷ config starts_with (codes "starts with") true
    ∷ config ends_with (codes "ends with") true
    ∷ config is_null (codes "IS NULL") false
    ∷ config is_not_null (codes "IS NOT NULL") false
    ∷ config in_list (codes "IN") true
    ∷ []

abbrev comparisons : List FilterOperator
comparisons = eq ∷ neq ∷ gt ∷ gte ∷ lt ∷ lte ∷ is_null ∷ is_not_null ∷ []

abbrev pub operators_by_category : ColumnCategory → List FilterOperator
operators_by_category text =
    eq ∷ neq ∷ contains ∷ icontains ∷ starts_with ∷ ends_with ∷ is_null ∷ is_not_null ∷ in_list ∷ []
operators_by_category integer =
    eq ∷ neq ∷ gt ∷ gte ∷ lt ∷ lte ∷ is_null ∷ is_not_null ∷ in_list ∷ []
operators_by_category float = comparisons
operators_by_category boolean = eq ∷ neq ∷ is_null ∷ is_not_null ∷ []
operators_by_category timestamp = comparisons
operators_by_category date = comparisons
operators_by_category time = comparisons
operators_by_category uuid = eq ∷ neq ∷ is_null ∷ is_not_null ∷ in_list ∷ []
operators_by_category json = is_null ∷ is_not_null ∷ []
operators_by_category array = is_null ∷ is_not_null ∷ []
operators_by_category other = eq ∷ neq ∷ is_null ∷ is_not_null ∷ []

-- `a === b` on operators, by their place in `FilterOperator`.
abbrev pub same_operator : FilterOperator → FilterOperator → Bool
same_operator eq eq = true
same_operator neq neq = true
same_operator gt gt = true
same_operator gte gte = true
same_operator lt lt = true
same_operator lte lte = true
same_operator contains contains = true
same_operator icontains icontains = true
same_operator starts_with starts_with = true
same_operator ends_with ends_with = true
same_operator is_null is_null = true
same_operator is_not_null is_not_null = true
same_operator in_list in_list = true
same_operator _ _ = false

unfoldable pub get_operators_for_category : ColumnCategory → List OperatorConfig
get_operators_for_category category =
    keep (λ op. any (same_operator op.operator) (operators_by_category category)) filter_operators

abbrev first_operator : List OperatorConfig → FilterOperator
first_operator [] = eq
first_operator (op ∷ _) = op.operator

unfoldable pub get_default_operator : ColumnCategory → FilterOperator
unfolding get_operators_for_category
get_default_operator category = first_operator (get_operators_for_category category)

abbrev needs_value_of : Option OperatorConfig → Bool
needs_value_of none = true
needs_value_of (some op) = op.needs_value

unfoldable pub operator_needs_value : FilterOperator → Bool
operator_needs_value operator =
    needs_value_of (find (λ op. same_operator op.operator operator) filter_operators)
