-- ===== src/Odata/Collect.antt =====
-- filterExtractor.ts, the second half: string functions, field names, the filter map, conjunctions
-- and disjunctions, inclusive ranges, and the field values of a whole tree.
use shared_ts_libs.Base.{
  Bool, true, false, not, ◌&&◌, List, [], ◌∷◌, ◌++◌, Option, none, some, String, str_eq, Dict,
  lookup, insert, contains, add, find, if◌then◌else◌,
}
use shared_ts_libs.Odata.Value.{
  Value, undefined, str, Host, Result, ok, throw, ◌>>=◌, exclusive_min, exclusive_max,
}
use shared_ts_libs.Odata.Filter.{
  StringFunction, contains as contains_fn, startswith, endswith, substringof, tolower, toupper, and,
  or, Filter, Filters, comparison, in_filter, not_in_filter, string_function, logical, no_more,
  also,
}
use shared_ts_libs.Odata.Bind.{Binds}
use shared_ts_libs.Odata.Tree.{transform_filter}
use shared_ts_libs.Odata.Extract.{
  flatten_filters, field_of, get_filters_for_field, Range, extract_range,
}

unfoldable pub function_text : StringFunction → String
function_text contains_fn = "contains"
function_text startswith = "startswith"
function_text endswith = "endswith"
function_text substringof = "substringof"
function_text tolower = "tolower"
function_text toupper = "toupper"

abbrev pub is_function : Option String → Filter → Bool
is_function none (string_function f field v) = true
is_function (some name) (string_function f field v) = str_eq (function_text f) name
is_function name _ = false

unfoldable pub extract_string_function : Filter → String → Option String → Option Filter
extract_string_function filter field name =
    find (is_function name) (get_filters_for_field filter field)

abbrev pub is_empty {ℓ} : {A : Type ℓ} → List A → Bool
is_empty [] = true
is_empty (x ∷ xs) = false

unfoldable pub has_field_filter : Filter → String → Bool
has_field_filter filter name = not (is_empty (get_filters_for_field filter name))

add_field : List String → Option String → List String
add_field names none = names
add_field names (some field) = add field names

unfoldable pub add_fields : List String → List Filter → List String
unfolding add_field
add_fields names [] = names
add_fields names (f ∷ fs) = add_fields (add_field names (field_of f)) fs

unfoldable pub get_filtered_field_names : Filter → List String
get_filtered_field_names filter = add_fields [] (flatten_filters filter)

unfoldable mutual
  pub collect_and_filters : Filter → List Filter
  collect_and_filters (logical and fs) = collect_and_each fs
  collect_and_filters f = f ∷ []

  pub collect_and_each : Filters → List Filter
  collect_and_each no_more = []
  collect_and_each (also f fs) = collect_and_filters f ++ collect_and_each fs

unfoldable mutual
  pub collect_or_filters : Filter → List Filter
  collect_or_filters (logical or fs) = collect_or_each fs
  collect_or_filters f = f ∷ []

  pub collect_or_each : Filters → List Filter
  collect_or_each no_more = []
  collect_or_each (also f fs) = collect_or_filters f ++ collect_or_each fs

abbrev pub or_empty {ℓ} : {A : Type ℓ} → Option (List A) → List A
or_empty none = []
or_empty (some xs) = xs

-- An empty field name is falsy, so its filter is left out.
unfoldable pub push_filter : Filter → Option String → Dict (List Filter) → Dict (List Filter)
push_filter f none m = m
push_filter f (some field) m =
    if str_eq field "" then m else insert field (or_empty (lookup field m) ++ f ∷ []) m

unfoldable pub push_filters : Dict (List Filter) → List Filter → Dict (List Filter)
unfolding push_filter
push_filters m [] = m
push_filters m (f ∷ fs) = push_filters (push_filter f (field_of f) m) fs

unfoldable pub create_filter_map : Filter → Dict (List Filter)
create_filter_map filter = push_filters [] (flatten_filters filter)

unfoldable pub find_unsupported_field : Filter → List String → Option String
find_unsupported_field filter supported =
    find (λ field. not (contains field supported)) (get_filtered_field_names filter)

pub record InclusiveRange : Type 0 where
  pub min : Value
  pub max : Value

unfoldable pub is_defined : Value → Bool
is_defined undefined = false
is_defined _ = true

is_inclusive : Option Bool → Bool
is_inclusive none = false
is_inclusive (some b) = b

unfoldable pub inclusive_of : String → Option Range → Result (Option InclusiveRange)
unfolding is_inclusive
inclusive_of name none = ok none
inclusive_of name (some r) =
    if is_defined r.min && not (is_inclusive r.min_inclusive)
    then throw (exclusive_min name)
    else if is_defined r.max && not (is_inclusive r.max_inclusive)
    then throw (exclusive_max name)
    else ok (some (record { min = r.min; max = r.max }))

unfoldable pub extract_inclusive_range : Filter → String → Result (Option InclusiveRange)
unfolding inclusive_of
extract_inclusive_range filter name = inclusive_of name (extract_range filter name)

-- What one filter of the map adds to the values of its field.
abbrev pub leaf_values : Filter → List Value
leaf_values (comparison field op v) = v ∷ []
leaf_values (in_filter field vs) = vs
leaf_values (not_in_filter field vs) = vs
leaf_values (string_function f field v) = str v ∷ []
leaf_values _ = []

abbrev pub all_values : List Filter → List Value
all_values [] = []
all_values (f ∷ fs) = leaf_values f ++ all_values fs

unfoldable pub set_values : String → List Value → Dict (List Value) → Dict (List Value)
set_values field [] m = m
set_values field (v ∷ vs) m = insert field (v ∷ vs) m

unfoldable pub values_map : Dict (List Value) → Dict (List Filter) → Dict (List Value)
unfolding set_values
values_map result [] = result
values_map result ((field, filters) ∷ entries) =
    values_map (set_values field (all_values filters) result) entries

unfoldable pub extract_all_field_values : Host → Binds → Value → Result (Dict (List Value))
unfolding values_map
extract_all_field_values host binds tree = do
  transformed ← transform_filter host binds tree
  ok (values_map [] (create_filter_map transformed))
