-- ===== src/Odata/Tests.antt =====
-- `$filter=name eq 'Ann' and (age ge 18 or id in (1, 2))` and what is read out of it.
mod Reading
use shared_ts_libs.Base.{
  ℕ, Bool, true, false, ◌&&◌, ◌||◌, ◌≡◌, ◌≢◌, ◌↔◌, refl, List, [], ◌∷◌, Option, none, some, String,
  str_eq, contains, lookup, every, some_of, if◌then◌else◌, Dict, arith,
}
use mathlib.Core.List.{head?}
use shared_ts_libs.Odata.Value.{
  null, Value, undefined, num, str, date, arr, obj, nil, cons, prop, no_props, Host, truthy,
  to_text, Result, ok, throw, exclusive_min, is_array,
}
use shared_ts_libs.Odata.Filter.{
  eq, ne, gt, ge, lt, le, and, or, substringof, Filter, comparison, in_filter, string_function,
  logical, not_filter, no_more, also,
}
use shared_ts_libs.Odata.Bind.{
  extract_bind_tuple_values, extract_all, as_date, Binds, first_two, resolve_bind,
  is_bind_reference,
}
use shared_ts_libs.Odata.Transform.{
  transform_call_function, is_field_reference, path_of, get_field_path, comparison_operator,
  string_function_named, logical_operator, resolve_value, transform_comparison, transform_in,
  transform_string_function,
}
use shared_ts_libs.Odata.Tree.{transform_filter}
use shared_ts_libs.Odata.Tree.Produced.{IsProduced, transform_filter-IsProduced}
use shared_ts_libs.Odata.Extract.{
  get_filters_for_field, flatten_filters, none_if_empty, extract_equality_value,
  extract_equality_values, extract_range, extract_field_values,
}
use shared_ts_libs.Odata.Collect.{
  function_text, has_field_filter, get_filtered_field_names, find_unsupported_field,
  collect_and_filters, collect_or_filters, create_filter_map, extract_all_field_values,
  extract_inclusive_range, all_values, add_fields, is_defined,
}
use shared_ts_libs.Odata.FieldNames.{
  Distinct, contains-get_filtered_field_names, get_filtered_field_names-Distinct,
}
use shared_ts_libs.Odata.FilterMap.{lookup-create_filter_map, extract_all_field_values-lookup}
use shared_ts_libs.Odata.Meaning.{holds, IsConjunction, get_filters_for_field-meaning}
use shared_ts_libs.Odata.Bounds.{
  lower_of, upper_of, last_bound, range_spec, inclusive_spec, IsDefined, first_in, or_equalities,
  extract_range-last_bound, extract_inclusive_range-last_bound, extract_field_values-first_in,
}
use shared_ts_libs.Odata.Operands.{transform_comparison-swap, transform_string_function-swap}
use shared_ts_libs.Odata.Query.{
  Field, named, within, bound, InWord, in_word, eqany, Spelling, Bound, Query, compare, compared,
  among, among_bound, text, negated, path_text, joined, none_left, field_ref, bind_ref, tree_of,
  filter_of, IsBound,
}
use shared_ts_libs.Odata.Query.Accepted.{transform_filter-tree_of}

odata : Unit {0}
unfolding transform_filter resolve_bind first_two field_ref path_text tree_of filter_of
    get_filters_for_field flatten_filters has_field_filter get_filtered_field_names add_fields
    find_unsupported_field extract_inclusive_range is_defined holds is_field_reference
    is_bind_reference truthy to_text is_array create_filter_map
odata = tt

abbrev pub host : Host
host = record { time_of = λ v. "0"; date_text = λ t. t; object_text = λ v. "[object Object]" }

-- The binds of the query, as the parser gives them.
abbrev tuple : String → Value → Value
tuple type v = arr (cons (str type) (cons v nil))

abbrev pub binds : Binds
binds =
    ("0", tuple "Text" (str "Ann"))
    ∷ ("1", tuple "Real" (num "18"))
    ∷ ("2", tuple "Real" (num "1"))
    ∷ ("3", tuple "Real" (num "2"))
    ∷ []

abbrev value_at : String → Value
value_at key =
    if str_eq key "0"
    then str "Ann"
    else if str_eq key "1"
    then num "18"
    else if str_eq key "2"
    then num "1"
    else num "2"

abbrev env : Bound
env = record { value = value_at; listed = λ key. [] }

abbrev query : Query
query =
    joined and (compare eq (named "name") (bound "0"))
      (joined or (compared ge (bound "1") (named "age"))
        (among in_word (named "id") ("2" ∷ "3" ∷ [])) none_left)
      none_left

abbrev pub filter : Filter
filter = logical and (
    also (comparison "name" eq (str "Ann")) (
      also
        (logical or (
          also (comparison "age" ge (num "18"))
            (also (in_filter "id" (num "1" ∷ num "2" ∷ [])) no_more)))
        no_more))

query-IsBound : IsBound host binds env query
unfolding odata
query-IsBound = ((refl, refl), ((refl, refl), (refl, (refl, tt)), tt), tt)

query_test : filter_of host env query ≡ filter
unfolding odata
query_test = refl

transformed : transform_filter host binds (tree_of query) ≡ ok filter
unfolding odata
transformed = transform_filter-tree_of host binds env query query-IsBound

-- Forms that the parser gives for `in` and for functions, with a property path.
abbrev list_binds : Binds
list_binds =
    ("0", tuple "List" (arr (cons (tuple "Text" (str "a")) (cons (tuple "Null" (str "b")) nil))))
    ∷ ("1", tuple "Text" (str "x"))
    ∷ []

abbrev forms : Query
forms =
    joined and (among_bound eqany (within "address" (named "city")) "0")
      (negated
        (text substringof (record { field_first = false; is_call = true }) (named "name") "1"))
      none_left

forms_test :
    transform_filter host list_binds (tree_of forms)
    ≡ ok (
        logical and (
          also
            (in_filter "address/city" (str "a" ∷ null ∷ []))
            (also (not_filter (string_function substringof "name" "x")) no_more)))
unfolding odata transform_call_function extract_bind_tuple_values extract_all as_date
    comparison_operator logical_operator transform_in function_text path_of
forms_test = refl

transform_filter-IsProduced_example : IsProduced filter
transform_filter-IsProduced_example =
    transform_filter-IsProduced host binds (tree_of query) filter transformed

extract_all_field_values-lookup_example :
    (m : Dict (List Value)) × (extract_all_field_values host binds (tree_of query) ≡ ok m)
    × ((k : String)
        → k ≢ ""
        → lookup k m ≡ none_if_empty (all_values (get_filters_for_field filter k)))
extract_all_field_values-lookup_example =
    extract_all_field_values-lookup host binds (tree_of query) filter transformed

is_field : is_field_reference (field_ref (named "price")) ≡ true
unfolding odata
is_field = refl

no_field : is_field_reference (num "5") ≡ false
unfolding odata
no_field = refl

-- `5 gt price`
transform_comparison-swap_example :
    transform_comparison host binds gt (num "5") (field_ref (named "price")) (num "5")
    ≡ transform_comparison host binds gt (field_ref (named "price")) (num "5") (num "5")
transform_comparison-swap_example =
    transform_comparison-swap host binds gt (field_ref (named "price")) (num "5") (num "5") is_field
      no_field
