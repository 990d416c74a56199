-- ===== src/Odata/Tests/Reading.antt =====
-- What is read out of the filter of `name eq 'Ann' and (age ge 18 or id in (1, 2))`.
use shared_ts_libs.Base.{
  Bool, true, false, ◌≡◌, ◌≢◌, ◌↔◌, refl, [], ◌∷◌, none, some, String, contains, every, some_of,
}
use shared_ts_libs.Odata.Filter.{eq, Filter, comparison}
use shared_ts_libs.Odata.Extract.{get_filters_for_field, flatten_filters, extract_range}
use shared_ts_libs.Odata.Collect.{
  has_field_filter, get_filtered_field_names, find_unsupported_field, collect_and_filters,
  collect_or_filters, extract_inclusive_range, add_fields, is_defined,
}
use shared_ts_libs.Odata.FieldNames.{find_unsupported_field-decides}
use shared_ts_libs.Odata.Meaning.{holds, collect_filters-meaning}
use shared_ts_libs.Odata.Bounds.{
  lower_of, upper_of, last_bound, range_spec, inclusive_spec, IsDefined, extract_range-last_bound,
  extract_inclusive_range-last_bound,
}
use shared_ts_libs.Odata.Tests.{filter}

reading : Unit {0}
unfolding get_filters_for_field flatten_filters has_field_filter get_filtered_field_names add_fields
    find_unsupported_field extract_inclusive_range is_defined holds
reading = tt

names_test : get_filtered_field_names filter ≡ "name" ∷ "age" ∷ "id" ∷ []
unfolding reading
names_test = refl

find_unsupported_field-decides_example :
    ((find_unsupported_field filter ("name" ∷ "id" ∷ []) ≡ none)
      ↔ ((k : String) → has_field_filter filter k ≡ true → contains k ("name" ∷ "id" ∷ []) ≡ true))
    × ((k : String)
        → find_unsupported_field filter ("name" ∷ "id" ∷ []) ≡ some k
        → (has_field_filter filter k ≡ true) × (contains k ("name" ∷ "id" ∷ []) ≡ false))
find_unsupported_field-decides_example = find_unsupported_field-decides filter ("name" ∷ "id" ∷ [])

age_unsupported : find_unsupported_field filter ("name" ∷ "id" ∷ []) ≡ some "age"
unfolding reading
age_unsupported = refl

abbrev age : String
age = "age"

named : age ≢ ""
named e = cc

-- Only the comparison with a name holds.
abbrev leaf : Filter → Bool
leaf (comparison field eq v) = true
leaf f = false

collect_filters-meaning_example :
    (every (holds leaf) (collect_and_filters filter) ≡ holds leaf filter)
    × (some_of (holds leaf) (collect_or_filters filter) ≡ holds leaf filter)
collect_filters-meaning_example = collect_filters-meaning leaf filter

extract_range-last_bound_example :
    extract_range filter "age"
    ≡ range_spec
        (last_bound lower_of (get_filters_for_field filter "age"))
        (last_bound upper_of (get_filters_for_field filter "age"))
extract_range-last_bound_example = extract_range-last_bound filter "age"

lower-IsDefined : IsDefined (last_bound lower_of (get_filters_for_field filter "age"))
unfolding reading
lower-IsDefined = refl

upper-IsDefined : IsDefined (last_bound upper_of (get_filters_for_field filter "age"))
unfolding reading
upper-IsDefined = tt

extract_inclusive_range-last_bound_example :
    extract_inclusive_range filter "age"
    ≡ inclusive_spec "age"
        (last_bound lower_of (get_filters_for_field filter "age"))
        (last_bound upper_of (get_filters_for_field filter "age"))
extract_inclusive_range-last_bound_example =
    extract_inclusive_range-last_bound filter "age" lower-IsDefined upper-IsDefined
