-- ===== src/Odata/FieldNames.antt =====
-- The fields that a filter names: which they are, that they are distinct, and the check against
-- the supported ones.
use shared_ts_libs.Base.{
  true, false, not, ◌||◌, ◌≡◌, refl, List, [], ◌∷◌, none, some, String, eq_iff, eq_refl, arith, sym,
  ◌∙◌, ◌↔◌, contains, add, contains-add, keep, find, Option-cases, inl, inr,
}
use shared_ts_libs.Odata.Filter.{
  Filter, comparison, in_filter, not_in_filter, string_function, logical, not_filter,
}
use shared_ts_libs.Odata.Extract.{flatten_filters, field_of, is_for, get_filters_for_field}
use shared_ts_libs.Odata.Collect.{
  is_empty, has_field_filter, add_fields, get_filtered_field_names, find_unsupported_field,
}

-- A name is in the set after the loop if it was there before or a filter of the list is for it.
contains-add_fields :
    (name : String) (names : List String) (fs : List Filter)
    → contains name (add_fields names fs)
      ≡ (contains name names || not (is_empty (keep (is_for name) fs)))
unfolding add_fields
contains-add_fields name names [] = ground arith
contains-add_fields name names (logical op gs ∷ fs) = contains-add_fields name names fs
contains-add_fields name names (not_filter g ∷ fs) = contains-add_fields name names fs
contains-add_fields name names (comparison field op v ∷ fs) =
    ground (arith, contains-add field name names, contains-add_fields name (add field names) fs)
contains-add_fields name names (in_filter field vs ∷ fs) =
    ground (arith, contains-add field name names, contains-add_fields name (add field names) fs)
contains-add_fields name names (not_in_filter field vs ∷ fs) =
    ground (arith, contains-add field name names, contains-add_fields name (add field names) fs)
contains-add_fields name names (string_function g field v ∷ fs) =
    ground (arith, contains-add field name names, contains-add_fields name (add field names) fs)

-- `hasFieldFilter` answers yes for exactly the names that `getFilteredFieldNames` returns.
pub contains-get_filtered_field_names :
    (filter : Filter) (name : String)
    → contains name (get_filtered_field_names filter) ≡ has_field_filter filter name
unfolding get_filtered_field_names has_field_filter get_filters_for_field
contains-get_filtered_field_names filter name = contains-add_fields name [] (flatten_filters filter)

abbrev pub Distinct : List String → Type 0
Distinct [] = Unit
Distinct (x ∷ xs) = (contains x xs ≡ false) × Distinct xs

add-Distinct : (k : String) (names : List String) → Distinct names → Distinct (add k names)
add-Distinct k [] h = (refl, tt)
add-Distinct k (j ∷ js) h =
    ground (arith, contains-add k j js, add-Distinct k js, eq_iff j k, eq_iff k j)

add_fields-Distinct :
    (names : List String) (fs : List Filter) → Distinct names → Distinct (add_fields names fs)
unfolding add_fields
add_fields-Distinct names [] h = h
add_fields-Distinct names (f ∷ fs) h = elim (Option-cases (field_of f)) [
  | inl none_there ↦ rw (none_there) (add_fields-Distinct names fs h)
  | inr (field, found) ↦
      rw found (add_fields-Distinct (add field names) fs (add-Distinct field names h))
]

-- `getFilteredFieldNames` returns no name twice, and exactly the names that `hasFieldFilter` accepts.
pub get_filtered_field_names-Distinct :
    (filter : Filter)
    → Distinct (get_filtered_field_names filter)
      × ((k : String) → contains k (get_filtered_field_names filter) ≡ has_field_filter filter k)
unfolding get_filtered_field_names
get_filtered_field_names-Distinct filter = (
  add_fields-Distinct [] (flatten_filters filter) tt,
  λ k. contains-get_filtered_field_names filter k,
)

abbrev pub AllIn : List String → List String → Type 0
AllIn supported names = (k : String) → contains k names ≡ true → contains k supported ≡ true

-- The search finds nothing exactly if every name is supported.
find-none :
    (supported names : List String)
    → find (λ k. not (contains k supported)) names ≡ none
    → AllIn supported names
find-none supported [] h k there = cc
find-none supported (j ∷ names) h k there =
    ground (arith, eq_iff j k, find-none supported names (ground arith) k)

none-find :
    (supported names : List String)
    → AllIn supported names
    → find (λ k. not (contains k supported)) names ≡ none
none-find supported [] all = refl
none-find supported (j ∷ names) all =
    ground (arith, eq_refl j, all j, none-find supported names (λ k there. all k (ground arith)))

find-some :
    (supported names : List String) (k : String)
    → find (λ j. not (contains j supported)) names ≡ some k
    → (contains k names ≡ true) × (contains k supported ≡ false)
find-some supported [] k h = cc
find-some supported (j ∷ names) k h = ground (arith, eq_refl k, find-some supported names k)

-- `findUnsupportedField` returns nothing exactly if every field that has a filter is supported, and a
-- name that it returns has a filter and is not supported.
pub find_unsupported_field-decides :
    (filter : Filter) (supported : List String)
    → ((find_unsupported_field filter supported ≡ none)
        ↔ ((k : String) → has_field_filter filter k ≡ true → contains k supported ≡ true))
      × ((k : String)
          → find_unsupported_field filter supported ≡ some k
          → (has_field_filter filter k ≡ true) × (contains k supported ≡ false))
unfolding find_unsupported_field
find_unsupported_field-decides filter supported = (
  (
    λ h k there.
        find-none supported (get_filtered_field_names filter) h k
          (contains-get_filtered_field_names filter k ∙ there),
    λ all.
        none-find supported (get_filtered_field_names filter)
          (λ k there. all k (sym (contains-get_filtered_field_names filter k) ∙ there)),
  ),
  λ k h.
      let (there, missing) = find-some supported (get_filtered_field_names filter) k h in
      (sym (contains-get_filtered_field_names filter k) ∙ there, missing),
)
