-- ===== src/Odata/FilterMap.antt =====
-- `createFilterMap` and `extractAllFieldValues`: the maps hold for each field what the extractor
-- of one field returns.
use shared_ts_libs.Base.{
  ◌≡◌, ◌≢◌, refl, List, [], ◌∷◌, ◌++◌, Option, none, some, String, str_eq, eq_iff, arith, Dict,
  lookup, insert, lookup-insert, keep, append_assoc, ap, ◌∙◌, if◌then◌else◌, Bool-cases, inl, inr,
}
use shared_ts_libs.Odata.Value.{Value, Host, ok}
use shared_ts_libs.Odata.Filter.{
  Filter, comparison, in_filter, not_in_filter, string_function, logical, not_filter,
}
use shared_ts_libs.Odata.Bind.{Binds}
use shared_ts_libs.Odata.Tree.{transform_filter}
use shared_ts_libs.Odata.Extract.{
  flatten_filters, field_of, is_for, get_filters_for_field, none_if_empty,
}
use shared_ts_libs.Odata.Collect.{
  or_empty, push_filter, push_filters, create_filter_map, all_values, set_values, values_map,
  extract_all_field_values,
}

-- The entry of a key after the filters `fs` for it were pushed.
abbrev extend {ℓ} : {A : Type ℓ} → Option (List A) → List A → Option (List A)
extend o [] = o
extend o (x ∷ xs) = some (or_empty o ++ x ∷ xs)

extend-extend {ℓ} :
    {A : Type ℓ} (o : Option (List A)) (x : A) (xs : List A)
    → extend (some (or_empty o ++ x ∷ [])) xs ≡ extend o (x ∷ xs)
extend-extend o x [] = refl
extend-extend o x (y ∷ ys) = ap some (append_assoc (or_empty o) (x ∷ []) (y ∷ ys))

lookup-push_filter :
    (k field : String) (f : Filter) (m : Dict (List Filter))
    → k ≢ ""
    → lookup k (push_filter f (some field) m)
      ≡ (if str_eq field k then some (or_empty (lookup k m) ++ f ∷ []) else lookup k m)
unfolding push_filter
lookup-push_filter k field f m named = ground (
  arith,
  eq_iff field "",
  eq_iff field k,
  lookup-insert field k (or_empty (lookup field m) ++ f ∷ []) m,
)

extend-push_filter :
    (k field : String) (f : Filter) (m : Dict (List Filter)) (rest : List Filter)
    → k ≢ ""
    → extend (lookup k (push_filter f (some field) m)) rest
      ≡ extend (lookup k m) (if str_eq field k then f ∷ rest else rest)
extend-push_filter k field f m rest named =
    rw (lookup-push_filter k field f m named) (elim (Bool-cases (str_eq field k)) [
      | inl same ↦ rw same (extend-extend (lookup k m) f rest)
      | inr other ↦ rw other refl
    ])

lookup-push_filters :
    (k : String) (m : Dict (List Filter)) (fs : List Filter)
    → k ≢ ""
    → lookup k (push_filters m fs) ≡ extend (lookup k m) (keep (is_for k) fs)
unfolding push_filters
lookup-push_filters k m [] named = refl
lookup-push_filters k m (logical op gs ∷ fs) named = lookup-push_filters k m fs named
lookup-push_filters k m (not_filter g ∷ fs) named = lookup-push_filters k m fs named
lookup-push_filters k m (comparison field op v ∷ fs) named =
    lookup-push_filters k (push_filter (comparison field op v) (some field) m) fs named
    ∙ extend-push_filter k field (comparison field op v) m (keep (is_for k) fs) named
lookup-push_filters k m (in_filter field vs ∷ fs) named =
    lookup-push_filters k (push_filter (in_filter field vs) (some field) m) fs named
    ∙ extend-push_filter k field (in_filter field vs) m (keep (is_for k) fs) named
lookup-push_filters k m (not_in_filter field vs ∷ fs) named =
    lookup-push_filters k (push_filter (not_in_filter field vs) (some field) m) fs named
    ∙ extend-push_filter k field (not_in_filter field vs) m (keep (is_for k) fs) named
lookup-push_filters k m (string_function g field v ∷ fs) named =
    lookup-push_filters k (push_filter (string_function g field v) (some field) m) fs named
    ∙ extend-push_filter k field (string_function g field v) m (keep (is_for k) fs) named

extend-none {ℓ} : {A : Type ℓ} (xs : List A) → extend none xs ≡ none_if_empty xs
extend-none [] = refl
extend-none (x ∷ xs) = refl

-- Under each field name but the empty one, `createFilterMap` holds the filters that
-- `getFiltersForField` returns, in their order, and no entry if there is none.
pub lookup-create_filter_map :
    (filter : Filter) (k : String)
    → k ≢ ""
    → lookup k (create_filter_map filter) ≡ none_if_empty (get_filters_for_field filter k)
unfolding create_filter_map get_filters_for_field
lookup-create_filter_map filter k named =
    lookup-push_filters k [] (flatten_filters filter) named
    ∙ extend-none (keep (is_for k) (flatten_filters filter))

-- No key twice.
abbrev Keyed {ℓ} : {V : Type ℓ} → Dict V → Type ℓ
Keyed [] = Unit
Keyed ((k, v) ∷ m) = (lookup k m ≡ none) × Keyed m

insert-Keyed {ℓ} : {V : Type ℓ} (k : String) (v : V) (m : Dict V) → Keyed m → Keyed (insert k v m)
insert-Keyed k v [] h = (refl, tt)
insert-Keyed k v ((j, w) ∷ m) h =
    ground (arith, lookup-insert k j v m, insert-Keyed k v m, eq_iff j k, eq_iff k j)

push_filter-Keyed :
    (f : Filter) (field : Option String) (m : Dict (List Filter))
    → Keyed m
    → Keyed (push_filter f field m)
unfolding push_filter
push_filter-Keyed f none m h = h
push_filter-Keyed f (some field) m h =
    ground (arith, insert-Keyed field (or_empty (lookup field m) ++ f ∷ []) m)

push_filters-Keyed :
    (m : Dict (List Filter)) (fs : List Filter) → Keyed m → Keyed (push_filters m fs)
unfolding push_filters
push_filters-Keyed m [] h = h
push_filters-Keyed m (f ∷ fs) h =
    push_filters-Keyed (push_filter f (field_of f) m) fs (push_filter-Keyed f (field_of f) m h)

create_filter_map-Keyed : (filter : Filter) → Keyed (create_filter_map filter)
unfolding create_filter_map
create_filter_map-Keyed filter = push_filters-Keyed [] (flatten_filters filter) tt

-- The entry of a key after the values `vs` were set, unless there were none.
abbrev extend_to : Option (List Value) → List Value → Option (List Value)
extend_to o [] = o
extend_to o (v ∷ vs) = some (v ∷ vs)

extend_to-none : (vs : List Value) → extend_to none vs ≡ none_if_empty vs
extend_to-none [] = refl
extend_to-none (v ∷ vs) = refl

abbrev override : Option (List Value) → Option (List Filter) → Option (List Value)
override o none = o
override o (some fs) = extend_to o (all_values fs)

lookup-set_values :
    (k field : String) (vs : List Value) (m : Dict (List Value))
    → lookup k (set_values field vs m)
      ≡ (if str_eq field k then extend_to (lookup k m) vs else lookup k m)
unfolding set_values
lookup-set_values k field [] m = ground arith
lookup-set_values k field (v ∷ vs) m = lookup-insert field k (v ∷ vs) m

lookup-values_map :
    (k : String) (result : Dict (List Value)) (m : Dict (List Filter))
    → Keyed m
    → lookup k (values_map result m) ≡ override (lookup k result) (lookup k m)
unfolding values_map
lookup-values_map k result [] h = refl
lookup-values_map k result ((field, fs) ∷ m) h = ground (
  arith,
  eq_iff field k,
  lookup-set_values k field (all_values fs) result,
  lookup-values_map k (set_values field (all_values fs) result) m,
)

override-none_if_empty :
    (fs : List Filter) → override none (none_if_empty fs) ≡ none_if_empty (all_values fs)
override-none_if_empty [] = refl
override-none_if_empty (f ∷ fs) = extend_to-none (all_values (f ∷ fs))

-- If the tree transforms, `extractAllFieldValues` returns a map that holds, under each field name
-- but the empty one, the values of all filters for that field, in their order, and no entry if
-- these have no value.
pub extract_all_field_values-lookup :
    (host : Host) (binds : Binds) (tree : Value) (filter : Filter)
    → transform_filter host binds tree ≡ ok filter
    → (m : Dict (List Value)) × (extract_all_field_values host binds tree ≡ ok m)
      × ((k : String)
          → k ≢ ""
          → lookup k m ≡ none_if_empty (all_values (get_filters_for_field filter k)))
unfolding extract_all_field_values
extract_all_field_values-lookup host binds tree filter h = (
  values_map [] (create_filter_map filter),
  rw h refl,
  λ k named.
      lookup-values_map k [] (create_filter_map filter) (create_filter_map-Keyed filter)
      ∙ ap (override none) (lookup-create_filter_map filter k named)
      ∙ override-none_if_empty (get_filters_for_field filter k),
)
