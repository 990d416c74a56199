-- ===== src/Odata/Extract.antt =====
-- filterExtractor.ts: reading field values out of a filter. `undefined` results are `Option`; a
-- bound of a range is the value `undefined` until it is set.

use shared_ts_libs.Base.{
  Bool, true, false, List, [], ◌∷◌, ◌++◌, map, Option, none, some, String, str_eq, keep, find,
}
use shared_ts_libs.Odata.Value.{Value, undefined, str}
use shared_ts_libs.Odata.Filter.{
  ComparisonOperator, eq, ne, gt, ge, lt, le, Filter, Filters, comparison, in_filter, not_in_filter,
  string_function, logical, not_filter, no_more, also,
}

unfoldable mutual
  pub flatten_filters : Filter → List Filter
  flatten_filters (logical op fs) = flatten_each fs
  flatten_filters (not_filter f) = flatten_filters f
  flatten_filters (comparison field op v) = comparison field op v ∷ []
  flatten_filters (in_filter field vs) = in_filter field vs ∷ []
  flatten_filters (not_in_filter field vs) = not_in_filter field vs ∷ []
  flatten_filters (string_function f field v) = string_function f field v ∷ []

  -- `filters.flatMap(flattenFilters)`
  pub flatten_each : Filters → List Filter
  flatten_each no_more = []
  flatten_each (also f fs) = flatten_filters f ++ flatten_each fs

-- The field of a filter that names one.
abbrev pub field_of : Filter → Option String
field_of (comparison field op v) = some field
field_of (in_filter field vs) = some field
field_of (not_in_filter field vs) = some field
field_of (string_function f field v) = some field
field_of (logical op fs) = none
field_of (not_filter f) = none

abbrev pub is_for : String → Filter → Bool
is_for name f = elim (field_of f) [ none ↦ false | some field ↦ str_eq field name ]

unfoldable pub get_filters_for_field : Filter → String → List Filter
get_filters_for_field filter name = keep (is_for name) (flatten_filters filter)

abbrev pub is_operator : ComparisonOperator → ComparisonOperator → Bool
is_operator eq eq = true
is_operator ne ne = true
is_operator gt gt = true
is_operator ge ge = true
is_operator lt lt = true
is_operator le le = true
is_operator _ _ = false

abbrev pub is_comparison_by : ComparisonOperator → Filter → Bool
is_comparison_by op (comparison field o v) = is_operator o op
is_comparison_by op _ = false

-- `filter.value`, of a comparison
abbrev pub value_of : Filter → Value
value_of (comparison field op v) = v
value_of (string_function f field v) = str v
value_of _ = undefined

unfoldable pub extract_equality_value : Filter → String → Option Value
extract_equality_value filter name =
    elim (find (is_comparison_by eq) (get_filters_for_field filter name)) [
      | none ↦ none
      | some f ↦ some (value_of f)
    ]

unfoldable pub extract_equality_values : Filter → String → List Value
extract_equality_values filter name =
    map value_of (keep (is_comparison_by eq) (get_filters_for_field filter name))

abbrev pub is_in : Filter → Bool
is_in (in_filter field vs) = true
is_in _ = false

abbrev pub values_of : Filter → List Value
values_of (in_filter field vs) = vs
values_of (not_in_filter field vs) = vs
values_of _ = []

unfoldable pub extract_in_values : Filter → String → Option (List Value)
extract_in_values filter name = elim (find is_in (get_filters_for_field filter name)) [
  | none ↦ none
  | some f ↦ some (values_of f)
]

abbrev pub none_if_empty {ℓ} : {A : Type ℓ} → List A → Option (List A)
none_if_empty [] = none
none_if_empty (x ∷ xs) = some (x ∷ xs)

unfoldable pub extract_field_values : Filter → String → Option (List Value)
extract_field_values filter name = elim (extract_in_values filter name) [
  | some vs ↦ some vs
  | none ↦ none_if_empty (extract_equality_values filter name)
]

unfoldable pub extract_comparison : Filter → String → ComparisonOperator → Option Filter
extract_comparison filter name op = find (is_comparison_by op) (get_filters_for_field filter name)

pub record Range : Type 0 where
  pub min : Value
  pub min_inclusive : Option Bool
  pub max : Value
  pub max_inclusive : Option Bool

abbrev pub unbounded : Range
unbounded = record { min = undefined; min_inclusive = none; max = undefined; max_inclusive = none }

abbrev pub is_range_operator : ComparisonOperator → Bool
is_range_operator eq = false
is_range_operator ne = false
is_range_operator _ = true

abbrev pub is_range_filter : Filter → Bool
is_range_filter (comparison field op v) = is_range_operator op
is_range_filter _ = false

-- One round of the loop over `rangeFilters`.
abbrev pub narrow : Range → Filter → Range
narrow r (comparison field gt v) = record r { min = v; min_inclusive = some false }
narrow r (comparison field ge v) = record r { min = v; min_inclusive = some true }
narrow r (comparison field lt v) = record r { max = v; max_inclusive = some false }
narrow r (comparison field le v) = record r { max = v; max_inclusive = some true }
narrow r _ = r

abbrev pub narrow_all : Range → List Filter → Range
narrow_all r [] = r
narrow_all r (f ∷ fs) = narrow_all (narrow r f) fs

unfoldable pub range_of : List Filter → Option Range
range_of [] = none
range_of (f ∷ fs) = some (narrow_all unbounded (f ∷ fs))

unfoldable pub extract_range : Filter → String → Option Range
unfolding range_of
extract_range filter name = range_of (keep is_range_filter (get_filters_for_field filter name))
