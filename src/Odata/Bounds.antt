-- ===== src/Odata/Bounds.antt =====
-- The ranges that are read out of a filter.
use shared_ts_libs.Base.{
  Bool, true, false, ◌≡◌, refl, List, [], ◌∷◌, Option, none, some, String, arith, keep, find, map,
  ap, sym, ◌∙◌,
}
use mathlib.Core.List.{head?}
use shared_ts_libs.Odata.Value.{Value, undefined, Result, ok, throw, exclusive_min, exclusive_max}
use shared_ts_libs.Odata.Filter.{eq, ne, gt, ge, lt, le, Filter, comparison, in_filter}
use shared_ts_libs.Odata.Extract.{
  Range, unbounded, is_range_filter, narrow, narrow_all, range_of, extract_range,
  get_filters_for_field, is_comparison_by, value_of, extract_equality_value,
  extract_equality_values, extract_in_values, extract_field_values, is_in, values_of,
}
use shared_ts_libs.Odata.Collect.{InclusiveRange, is_defined, inclusive_of, extract_inclusive_range}

-- A bound on one side: its value, and whether it is inclusive.
abbrev pub lower_of : Filter → Option (Value × Bool)
lower_of (comparison field gt v) = some (v, false)
lower_of (comparison field ge v) = some (v, true)
lower_of _ = none

abbrev pub upper_of : Filter → Option (Value × Bool)
upper_of (comparison field lt v) = some (v, false)
upper_of (comparison field le v) = some (v, true)
upper_of _ = none

-- The last bound of a list, if it holds one.
abbrev pub last_bound : (Filter → Option (Value × Bool)) → List Filter → Option (Value × Bool)
last_bound bound [] = none
last_bound bound (f ∷ fs) = elim (last_bound bound fs) [ some b ↦ some b | none ↦ bound f ]

abbrev or_bound : Option (Value × Bool) → Option (Value × Bool) → Option (Value × Bool)
or_bound (some b) other = some b
or_bound none other = other

abbrev bound_value : Option (Value × Bool) → Value → Value
bound_value none v = v
bound_value (some b) v = b.0

abbrev bound_inclusive : Option (Value × Bool) → Option Bool → Option Bool
bound_inclusive none v = v
bound_inclusive (some b) v = some b.1

-- The range that the two last bounds make.
abbrev pub range_by : Option (Value × Bool) → Option (Value × Bool) → Range → Range
range_by lower upper r = record {
  min = bound_value lower r.min;
  min_inclusive = bound_inclusive lower r.min_inclusive;
  max = bound_value upper r.max;
  max_inclusive = bound_inclusive upper r.max_inclusive;
}

narrow_all-range_by :
    (r : Range) (fs : List Filter)
    → narrow_all r fs ≡ range_by (last_bound lower_of fs) (last_bound upper_of fs) r
narrow_all-range_by r [] = refl
narrow_all-range_by r (comparison field eq v ∷ fs) = ground (arith, narrow_all-range_by r fs)
narrow_all-range_by r (comparison field gt v ∷ fs) =
    ground (arith, narrow_all-range_by (narrow r (comparison field gt v)) fs)
narrow_all-range_by r (f ∷ fs) = ground (arith, narrow_all-range_by (narrow r f) fs)

abbrev pub range_spec : Option (Value × Bool) → Option (Value × Bool) → Option Range
range_spec none none = none
range_spec lower upper = some (range_by lower upper unbounded)

last_bound-keep_lower :
    (fs : List Filter) → last_bound lower_of (keep is_range_filter fs) ≡ last_bound lower_of fs
last_bound-keep_lower [] = refl
last_bound-keep_lower (comparison field op v ∷ fs) = ground (arith, last_bound-keep_lower fs)
last_bound-keep_lower (f ∷ fs) = ground (arith, last_bound-keep_lower fs)

last_bound-keep_upper :
    (fs : List Filter) → last_bound upper_of (keep is_range_filter fs) ≡ last_bound upper_of fs
last_bound-keep_upper [] = refl
last_bound-keep_upper (comparison field op v ∷ fs) = ground (arith, last_bound-keep_upper fs)
last_bound-keep_upper (f ∷ fs) = ground (arith, last_bound-keep_upper fs)

-- A range filter sets one of the bounds.
range_spec-cons :
    (f : Filter) (fs : List Filter) (r : Range)
    → is_range_filter f ≡ true
    → range_spec (last_bound lower_of (f ∷ fs)) (last_bound upper_of (f ∷ fs))
      ≡ some (range_by (last_bound lower_of (f ∷ fs)) (last_bound upper_of (f ∷ fs)) unbounded)
range_spec-cons (comparison field eq v) fs r h = cc
range_spec-cons (comparison field ne v) fs r h = cc
range_spec-cons (comparison field op v) fs r h = ground arith
range_spec-cons _ fs r h = cc

keep-head {ℓ} :
    {A : Type ℓ} (p : A → Bool) (y : A) (ys xs : List A) → keep p xs ≡ y ∷ ys → p y ≡ true
keep-head p y ys [] h = cc
keep-head p y ys (x ∷ xs) h = ground (arith, keep-head p y ys xs)

range_of-spec :
    (fs : List Filter) (gs : List Filter)
    → keep is_range_filter fs ≡ gs
    → range_of gs ≡ range_spec (last_bound lower_of gs) (last_bound upper_of gs)
unfolding range_of
range_of-spec fs [] h = refl
range_of-spec fs (g ∷ gs) h =
    ap some (narrow_all-range_by unbounded (g ∷ gs))
    ∙ sym (range_spec-cons g gs unbounded (keep-head is_range_filter g gs fs h))

-- `extractRange` returns the last lower and the last upper bound of the field, each with its value
-- and whether it is inclusive, and nothing exactly if the field has neither.
pub extract_range-last_bound :
    (filter : Filter) (name : String)
    → extract_range filter name
      ≡ range_spec
          (last_bound lower_of (get_filters_for_field filter name))
          (last_bound upper_of (get_filters_for_field filter name))
unfolding extract_range
extract_range-last_bound filter name =
    let fs = get_filters_for_field filter name in
    range_of-spec fs (keep is_range_filter fs) refl
    ∙ rw (last_bound-keep_lower fs, last_bound-keep_upper fs) refl

abbrev pub IsDefined : Option (Value × Bool) → Type 0
IsDefined none = Unit
IsDefined (some b) = is_defined b.0 ≡ true

abbrev pub inclusive_spec :
    String → Option (Value × Bool) → Option (Value × Bool) → Result (Option InclusiveRange)
inclusive_spec name none none = ok none
inclusive_spec name (some (v, false)) upper = throw (exclusive_min name)
inclusive_spec name lower (some (w, false)) = throw (exclusive_max name)
inclusive_spec name lower upper =
    ok (some (record { min = bound_value lower undefined; max = bound_value upper undefined }))

inclusive_of-range_spec :
    (name : String) (lower upper : Option (Value × Bool))
    → IsDefined lower
    → IsDefined upper
    → inclusive_of name (range_spec lower upper) ≡ inclusive_spec name lower upper
unfolding inclusive_of is_defined
inclusive_of-range_spec name none none hl hu = refl
inclusive_of-range_spec name none (some (w, false)) hl hu = ground arith
inclusive_of-range_spec name none (some (w, true)) hl hu = ground arith
inclusive_of-range_spec name (some (v, false)) none hl hu = ground arith
inclusive_of-range_spec name (some (v, true)) none hl hu = ground arith
inclusive_of-range_spec name (some (v, false)) (some b) hl hu = ground arith
inclusive_of-range_spec name (some (v, true)) (some (w, false)) hl hu = ground arith
inclusive_of-range_spec name (some (v, true)) (some (w, true)) hl hu = ground arith

-- Where the values of the last bounds are not `undefined`, `extractInclusiveRange` returns both
-- values, fails on an exclusive lower bound, else on an exclusive upper one, and returns nothing
-- if the field has no bound.
pub extract_inclusive_range-last_bound :
    (filter : Filter) (name : String)
    → IsDefined (last_bound lower_of (get_filters_for_field filter name))
    → IsDefined (last_bound upper_of (get_filters_for_field filter name))
    → extract_inclusive_range filter name
      ≡ inclusive_spec name
          (last_bound lower_of (get_filters_for_field filter name))
          (last_bound upper_of (get_filters_for_field filter name))
unfolding extract_inclusive_range
extract_inclusive_range-last_bound filter name hl hu =
    ap (inclusive_of name) (extract_range-last_bound filter name)
    ∙ inclusive_of-range_spec name _ _ hl hu

head_of-keep {ℓ κ} :
    {A : Type ℓ} {B : Type κ} (p : A → Bool) (g : A → B) (xs : List A)
    → elim (find p xs) [ none ↦ none | some x ↦ some (g x) ] ≡ head? (map g (keep p xs))
head_of-keep p g [] = refl
head_of-keep p g (x ∷ xs) = ground (arith, head_of-keep p g xs)

-- The first `in` filter of a field, as `extractInValues` reads it.
abbrev pub first_in : List Filter → Option (List Value)
first_in [] = none
first_in (in_filter field vs ∷ fs) = some vs
first_in (f ∷ fs) = first_in fs

extract_in_values-first_in :
    (fs : List Filter)
    → elim (find is_in fs) [ none ↦ none | some f ↦ some (values_of f) ] ≡ first_in fs
extract_in_values-first_in [] = refl
extract_in_values-first_in (in_filter field vs ∷ fs) = refl
extract_in_values-first_in (f ∷ fs) = extract_in_values-first_in fs

abbrev pub or_equalities : Option (List Value) → List Value → Option (List Value)
or_equalities (some vs) eqs = some vs
or_equalities none [] = none
or_equalities none (v ∷ vs) = some (v ∷ vs)

-- `extractEqualityValue` returns the first of the values that `extractEqualityValues` returns.
-- `extractFieldValues` returns the values of the field's first `in` filter, even an empty list of
-- them; without such a filter it returns all the values that the field is compared with by `eq`,
-- and nothing if there are none.
pub extract_field_values-first_in :
    (filter : Filter) (name : String)
    → (extract_equality_value filter name ≡ head? (extract_equality_values filter name))
      × (extract_field_values filter name
          ≡ or_equalities
              (first_in (get_filters_for_field filter name))
              (extract_equality_values filter name))
unfolding extract_field_values extract_in_values extract_equality_value extract_equality_values
extract_field_values-first_in filter name = (
  head_of-keep (is_comparison_by eq) value_of (get_filters_for_field filter name),
  ground (arith, extract_in_values-first_in (get_filters_for_field filter name)),
)
