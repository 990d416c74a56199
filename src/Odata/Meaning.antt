-- ===== src/Odata/Meaning.antt =====
-- What a filter means, given which of its leaves hold, and what the collectors keep of it.
use shared_ts_libs.Base.{
  Bool, true, false, not, ◌&&◌, ◌||◌, ◌≡◌, refl, List, [], ◌∷◌, every, some_of, every-append,
  some_of-append, keep, arith, String, ◌∙◌,
}
use shared_ts_libs.Odata.Filter.{Filter, Filters, and, or, logical, not_filter, no_more, also}
use shared_ts_libs.Odata.Extract.{flatten_filters, flatten_each, is_for, get_filters_for_field}
use shared_ts_libs.Odata.Collect.{
  collect_and_filters, collect_and_each, collect_or_filters, collect_or_each,
}

-- The meaning of OData's `and`, `or` and `not` over the leaves' truth values.
unfoldable mutual
  pub holds : (Filter → Bool) → Filter → Bool
  holds leaf (logical and fs) = all_hold leaf fs
  holds leaf (logical or fs) = any_holds leaf fs
  holds leaf (not_filter f) = not (holds leaf f)
  holds leaf f = leaf f

  pub all_hold : (Filter → Bool) → Filters → Bool
  all_hold leaf no_more = true
  all_hold leaf (also f fs) = holds leaf f && all_hold leaf fs

  pub any_holds : (Filter → Bool) → Filters → Bool
  any_holds leaf no_more = false
  any_holds leaf (also f fs) = holds leaf f || any_holds leaf fs

&&-true : (b : Bool) → (b && true) ≡ b
&&-true b = ground arith

||-false : (b : Bool) → (b || false) ≡ b
||-false b = ground arith

mutual
  unfolding collect_and_filters collect_and_each holds all_hold

  every-collect_and :
      (leaf : Filter → Bool) (f : Filter)
      → every (holds leaf) (collect_and_filters f) ≡ holds leaf f
  every-collect_and leaf (logical and fs) = every-collect_and_each leaf fs
  every-collect_and leaf f = &&-true (holds leaf f)

  every-collect_and_each :
      (leaf : Filter → Bool) (fs : Filters)
      → every (holds leaf) (collect_and_each fs) ≡ all_hold leaf fs
  every-collect_and_each leaf no_more = refl
  every-collect_and_each leaf (also f fs) =
      every-append (holds leaf) (collect_and_filters f) (collect_and_each fs)
      ∙ ground (arith, every-collect_and leaf f, every-collect_and_each leaf fs)

mutual
  unfolding collect_or_filters collect_or_each holds any_holds

  some-collect_or :
      (leaf : Filter → Bool) (f : Filter)
      → some_of (holds leaf) (collect_or_filters f) ≡ holds leaf f
  some-collect_or leaf (logical or fs) = some-collect_or_each leaf fs
  some-collect_or leaf f = ||-false (holds leaf f)

  some-collect_or_each :
      (leaf : Filter → Bool) (fs : Filters)
      → some_of (holds leaf) (collect_or_each fs) ≡ any_holds leaf fs
  some-collect_or_each leaf no_more = refl
  some-collect_or_each leaf (also f fs) =
      some_of-append (holds leaf) (collect_or_filters f) (collect_or_each fs)
      ∙ ground (arith, some-collect_or leaf f, some-collect_or_each leaf fs)

-- A filter holds exactly if all the filters hold that `collectAndFilters` takes out of it, and exactly
-- if one of the filters holds that `collectOrFilters` takes out of it.
pub collect_filters-meaning :
    (leaf : Filter → Bool) (f : Filter)
    → (every (holds leaf) (collect_and_filters f) ≡ holds leaf f)
      × (some_of (holds leaf) (collect_or_filters f) ≡ holds leaf f)
collect_filters-meaning leaf f = (every-collect_and leaf f, some-collect_or leaf f)

-- No `or` and no `not` in the filter.
abbrev mutual
  pub IsConjunction : Filter → Type 0
  IsConjunction (logical and fs) = AreConjunctions fs
  IsConjunction (logical or fs) = ⊥
  IsConjunction (not_filter f) = ⊥
  IsConjunction _ = Unit

  pub AreConjunctions : Filters → Type 0
  AreConjunctions no_more = Unit
  AreConjunctions (also f fs) = IsConjunction f × AreConjunctions fs

mutual
  unfolding flatten_filters flatten_each holds all_hold

  every-flatten :
      (leaf : Filter → Bool) (f : Filter)
      → IsConjunction f
      → every (holds leaf) (flatten_filters f) ≡ holds leaf f
  every-flatten leaf (logical and fs) h = every-flatten_each leaf fs h
  every-flatten leaf (logical or fs) h = absurd h
  every-flatten leaf (not_filter f) h = absurd h
  every-flatten leaf f h = &&-true (leaf f)

  every-flatten_each :
      (leaf : Filter → Bool) (fs : Filters)
      → AreConjunctions fs
      → every (holds leaf) (flatten_each fs) ≡ all_hold leaf fs
  every-flatten_each leaf no_more h = refl
  every-flatten_each leaf (also f fs) h =
      every-append (holds leaf) (flatten_filters f) (flatten_each fs)
      ∙ ground (arith, every-flatten leaf f h.0, every-flatten_each leaf fs h.1)

every-keep {ℓ} :
    {A : Type ℓ} (p q : A → Bool) (xs : List A) → every p xs ≡ true → every p (keep q xs) ≡ true
every-keep p q [] h = refl
every-keep p q (x ∷ xs) h = ground (arith, every-keep p q xs)

-- Where a filter built with `and` alone holds, so does every filter that `getFiltersForField` returns for a field.
pub get_filters_for_field-meaning :
    (leaf : Filter → Bool) (f : Filter) (name : String)
    → IsConjunction f
    → holds leaf f ≡ true
    → every (holds leaf) (get_filters_for_field f name) ≡ true
unfolding get_filters_for_field
get_filters_for_field-meaning leaf f name h true_there =
    every-keep (holds leaf) (is_for name) (flatten_filters f) (every-flatten leaf f h ∙ true_there)
