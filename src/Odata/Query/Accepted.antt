-- ===== src/Odata/Query/Accepted.antt =====
-- The transformer accepts the queries, and yields the filters that they stand for.
use Prim.Native.String
use shared_ts_libs.Base.{Bool, true, false, ◌≡◌, refl, ap, ◌∙◌, List, [], ◌∷◌, String, map}
use shared_ts_libs.Odata.Value.{
  Value, str, arr, obj, Values, nil, cons, no_props, prop, Host, truthy, is_array, to_text, ok,
}
use shared_ts_libs.Odata.Filter.{
  ComparisonOperator, eq, ne, gt, ge, lt, le, LogicalOperator, and, or, StringFunction, contains,
  startswith, endswith, substringof, tolower, toupper, comparison, in_filter, string_function,
}
use shared_ts_libs.Odata.Bind.{
  Binds, resolve_bind, resolve_binds, is_bind_reference, extract_all, extract_bind_tuple_values,
  first_two, as_date,
}
use shared_ts_libs.Odata.Transform.{
  transform_comparison, transform_in, transform_string_function, transform_call_function,
  is_field_reference, get_field_path, path_of, resolve_value, comparison_operator, logical_operator,
  string_function_named,
}
use shared_ts_libs.Odata.Tree.{
  comparison_node, in_node, string_node, call_node, logical_node, not_node, form_of, dispatch,
  transform_filter_node, transform_operands, transform_inner, transform_filter,
}
use shared_ts_libs.Odata.Collect.{function_text}
use shared_ts_libs.Odata.Query.{
  Field, named, within, Single, bound, nothing, written, number, truth, InWord, in_word, eqany,
  Query, Queries, compare, compared, alike, among, among_bound, text, joined, negated, none_left,
  and_then, operator_text, logical_text, in_text, field_ref, path_text, bind_ref, bind_refs,
  single_node, pair, text_operands, text_node, tree_of, trees_of, Bound, single_value, filter_of,
  filters_of, TupleType, text_type, real_type, boolean_type, date_type, date_time_type, null_type,
  duration_type, tuples, meanings, Lists, single, several, Holds, AllHeld, IsSingle, IsBound,
  AreBound,
}

form_of-compare :
    (op : ComparisonOperator) (l r : Value)
    → form_of (str (operator_text op)) (cons l (cons r nil)) ≡ comparison_node op l r
unfolding form_of comparison_operator
form_of-compare eq l r = refl
form_of-compare ne l r = refl
form_of-compare gt l r = refl
form_of-compare ge l r = refl
form_of-compare lt l r = refl
form_of-compare le l r = refl

form_of-in :
    (word : InWord) (field : Field) (values : Value)
    → form_of (str (in_text word)) (cons (field_ref field) (cons values nil))
      ≡ in_node (field_ref field) values
unfolding form_of comparison_operator is_field_reference field_ref
form_of-in in_word (named name) values = refl
form_of-in in_word (within name field) values = refl
form_of-in eqany (named name) values = refl
form_of-in eqany (within name field) values = refl

form_of-text :
    (f : StringFunction) (l r : Value)
    → form_of (str (function_text f)) (pair l r) ≡ string_node f l r
unfolding form_of comparison_operator string_function_named function_text
form_of-text contains l r = refl
form_of-text startswith l r = refl
form_of-text endswith l r = refl
form_of-text substringof l r = refl
form_of-text tolower l r = refl
form_of-text toupper l r = refl

form_of-call :
    (method args : Value)
    → form_of (str "call") (cons (obj (prop "method" method (prop "args" args no_props))) nil)
      ≡ call_node method args
unfolding form_of
form_of-call method args = refl

form_of-logical :
    (op : LogicalOperator) (p q : Value) (qs : Values)
    → form_of (str (logical_text op)) (cons p (cons q qs)) ≡ logical_node op
unfolding form_of comparison_operator string_function_named logical_operator
form_of-logical and p q nil = refl
form_of-logical and p q (cons r rs) = refl
form_of-logical or p q nil = refl
form_of-logical or p q (cons r rs) = refl

form_of-not : (q : Value) → form_of (str "not") (cons q nil) ≡ not_node
unfolding form_of
form_of-not q = refl

bind_ref-test : (key : String) → is_bind_reference (bind_ref key) ≡ true
unfolding is_bind_reference
bind_ref-test key = refl

field_ref-test : (f : Field) → is_field_reference (field_ref f) ≡ true
unfolding is_field_reference field_ref
field_ref-test (named name) = refl
field_ref-test (within name f) = refl

field_ref-no_bind : (f : Field) → is_bind_reference (field_ref f) ≡ false
unfolding is_bind_reference field_ref
field_ref-no_bind (named name) = refl
field_ref-no_bind (within name f) = refl

single_node-no_field : (s : Single) → is_field_reference (single_node s) ≡ false
unfolding is_field_reference
single_node-no_field (bound key) = refl
single_node-no_field nothing = refl
single_node-no_field (written t) = refl
single_node-no_field (number t) = refl
single_node-no_field (truth b) = refl

field_ref-path : (host : Host) (f : Field) → path_of host (field_ref f) ≡ path_text f
unfolding path_of get_field_path truthy to_text field_ref path_text
field_ref-path host (named name) = refl
field_ref-path host (within name f) =
    elim f
        as (λ f.
          path_of host (field_ref f) ≡ path_text f
          → path_of host (field_ref (within name f)) ≡ path_text (within name f)) [
            | named n ↦ λ h. refl
            | within n g ↦ λ h. ap (λ p. String.◌++◌ name (String.◌++◌ "/" p)) h
          ]
      (field_ref-path host f)

module _ (host : Host) (binds : Binds) (env : Bound) where
  single-resolved :
      (s : Single)
      → IsSingle host binds env s
      → resolve_value host binds (single_node s) ≡ ok (single_value env s)
  unfolding resolve_value is_array is_bind_reference is_field_reference
  single-resolved (bound key) h = rw h.0 (rw h.1 refl)
  single-resolved nothing h = refl
  single-resolved (written t) h = refl
  single-resolved (number t) h = refl
  single-resolved (truth b) h = refl

  field-resolved : (f : Field) → resolve_value host binds (field_ref f) ≡ ok (str (path_text f))
  unfolding resolve_value
  field-resolved f =
      rw (field_ref-no_bind f, field_ref-test f, resolve_value) (rw (field_ref-path host f) refl)

  compare-accepted :
      (op : ComparisonOperator) (f : Field) (r tree v : Value)
      → resolve_value host binds r ≡ ok v
      → transform_comparison host binds op (field_ref f) r tree ≡ ok (comparison (path_text f) op v)
  unfolding transform_comparison
  compare-accepted op f r tree v h =
      rw (field_ref-test f, transform_comparison) (rw h (rw (field_ref-path host f) refl))

  compared-resolved :
      (op : ComparisonOperator) (l : Value) (f : Field) (tree v : Value)
      → is_field_reference l ≡ false
      → resolve_value host binds l ≡ ok v
      → transform_comparison host binds op l (field_ref f) tree ≡ ok (comparison (path_text f) op v)
  unfolding transform_comparison
  compared-resolved op l f tree v no_field h =
      rw (h, transform_comparison)
        (rw (no_field, field_ref-test f) (rw (field_ref-path host f) refl))

  compared-accepted :
      (op : ComparisonOperator) (s : Single) (f : Field) (tree : Value)
      → IsSingle host binds env s
      → transform_comparison host binds op (single_node s) (field_ref f) tree
        ≡ ok (comparison (path_text f) op (single_value env s))
  compared-accepted op s f tree h =
      compared-resolved op (single_node s) f tree _ (single_node-no_field s) (single-resolved s h)

  module _ (f : Field) (key : String) (tree : Value) (held : Holds host binds env key) where
    text-direct :
        (function : StringFunction)
        → transform_string_function host binds function (field_ref f) (bind_ref key) tree
          ≡ ok (string_function function (path_text f) (to_text host (env.value key)))
    unfolding transform_string_function is_bind_reference is_field_reference
    text-direct substringof = rw (field_ref-test f) (rw held (rw (field_ref-path host f) refl))
    text-direct function = rw (field_ref-test f) (rw held (rw (field_ref-path host f) refl))

    text-reversed :
        (function : StringFunction)
        → transform_string_function host binds function (bind_ref key) (field_ref f) tree
          ≡ ok (string_function function (path_text f) (to_text host (env.value key)))
    unfolding transform_string_function is_bind_reference is_field_reference
    text-reversed substringof = rw (field_ref-test f) (rw held (rw (field_ref-path host f) refl))
    text-reversed function = rw (field_ref-test f) (rw held (rw (field_ref-path host f) refl))

  call-direct :
      (f : StringFunction) (a b tree : Value)
      → transform_call_function host binds (str (function_text f)) (arr (pair a b)) tree
        ≡ transform_string_function host binds f a b tree
  unfolding transform_call_function transform_string_function function_text string_function_named
      first_two
  call-direct contains a b tree = refl
  call-direct startswith a b tree = refl
  call-direct endswith a b tree = refl
  call-direct substringof a b tree = refl
  call-direct tolower a b tree = refl
  call-direct toupper a b tree = refl

  binds-resolved :
      (keys : List String)
      → AllHeld host binds env keys
      → resolve_binds host binds (bind_refs keys) ≡ ok (map env.value keys)
  unfolding resolve_binds
  binds-resolved [] held = refl
  binds-resolved (key ∷ keys) held = rw held.0 (rw (binds-resolved keys held.1) refl)

  in-accepted :
      (f : Field) (keys : List String) (tree : Value)
      → AllHeld host binds env keys
      → transform_in host binds (field_ref f) (arr (bind_refs keys)) tree
        ≡ ok (in_filter (path_text f) (map env.value keys))
  unfolding transform_in
  in-accepted f keys tree held = rw (binds-resolved keys held) (rw (field_ref-path host f) refl)

  tuples-extracted :
      (ts : List (TupleType × Value)) → extract_all host (tuples ts) ≡ ok (meanings host ts)
  unfolding extract_all first_two as_date
  tuples-extracted [] = refl
  tuples-extracted ((text_type, v) ∷ ts) = rw (tuples-extracted ts) refl
  tuples-extracted ((real_type, v) ∷ ts) = rw (tuples-extracted ts) refl
  tuples-extracted ((boolean_type, v) ∷ ts) = rw (tuples-extracted ts) refl
  tuples-extracted ((date_type, v) ∷ ts) = rw (tuples-extracted ts) refl
  tuples-extracted ((date_time_type, v) ∷ ts) = rw (tuples-extracted ts) refl
  tuples-extracted ((null_type, v) ∷ ts) = rw (tuples-extracted ts) refl
  tuples-extracted ((duration_type, v) ∷ ts) = rw (tuples-extracted ts) refl

  -- The list is extracted by the form of its first entry.
  tuples-listed :
      (ts : List (TupleType × Value))
      → extract_bind_tuple_values host (arr (tuples ts)) ≡ ok (meanings host ts)
  unfolding extract_bind_tuple_values extract_all
  tuples-listed [] = refl
  tuples-listed ((text_type, v) ∷ ts) = tuples-extracted ((text_type, v) ∷ ts)
  tuples-listed ((real_type, v) ∷ ts) = tuples-extracted ((real_type, v) ∷ ts)
  tuples-listed ((boolean_type, v) ∷ ts) = tuples-extracted ((boolean_type, v) ∷ ts)
  tuples-listed ((date_type, v) ∷ ts) = tuples-extracted ((date_type, v) ∷ ts)
  tuples-listed ((date_time_type, v) ∷ ts) = tuples-extracted ((date_time_type, v) ∷ ts)
  tuples-listed ((null_type, v) ∷ ts) = tuples-extracted ((null_type, v) ∷ ts)
  tuples-listed ((duration_type, v) ∷ ts) = tuples-extracted ((duration_type, v) ∷ ts)

  bound-accepted :
      (f : Field) (key : String) (tree v : Value) (vs : List Value)
      → resolve_bind host binds (bind_ref key) ≡ ok v
      → Lists host v vs
      → transform_in host binds (field_ref f) (bind_ref key) tree ≡ ok (in_filter (path_text f) vs)
  unfolding transform_in extract_bind_tuple_values is_array is_bind_reference
  bound-accepted f key tree v vs held (single flat) =
      rw held (rw flat (rw (field_ref-path host f) refl))
  bound-accepted f key tree v vs held (several ts) =
      rw held (rw (tuples-listed ts) (rw (field_ref-path host f) refl))

  text-accepted :
      (f : StringFunction) (is_call field_first : Bool) (field : Field) (key : String)
      → Holds host binds env key
      → transform_filter_node host binds
          (text_node f is_call (text_operands field_first (field_ref field) (bind_ref key)))
        ≡ ok (string_function f (path_text field) (to_text host (env.value key)))
  unfolding transform_filter_node dispatch
  text-accepted f false true field key h =
      rw (form_of-text f (field_ref field) (bind_ref key)) (text-direct field key _ h f)
  text-accepted f false false field key h =
      rw (form_of-text f (bind_ref key) (field_ref field)) (text-reversed field key _ h f)
  text-accepted f true true field key h =
      rw (form_of-call (str (function_text f)) (arr (pair (field_ref field) (bind_ref key))))
        (call-direct f (field_ref field) (bind_ref key) _ ∙ text-direct field key _ h f)
  text-accepted f true false field key h =
      rw (form_of-call (str (function_text f)) (arr (pair (bind_ref key) (field_ref field))))
        (call-direct f (bind_ref key) (field_ref field) _ ∙ text-reversed field key _ h f)

mutual
  unfolding tree_of trees_of filter_of filters_of transform_filter_node transform_operands
      transform_inner dispatch

  query-accepted :
      (host : Host) (binds : Binds) (env : Bound) (q : Query)
      → IsBound host binds env q
      → transform_filter_node host binds (tree_of q) ≡ ok (filter_of host env q)
  query-accepted host binds env (compare op field s) h =
      rw (form_of-compare op (field_ref field) (single_node s)) (
        compare-accepted host binds env op field (single_node s) _ _
          (single-resolved host binds env s h))
  query-accepted host binds env (compared op s field) h =
      rw (form_of-compare op (single_node s) (field_ref field))
        (compared-accepted host binds env op s field _ h)
  query-accepted host binds env (alike op field other) h =
      rw (form_of-compare op (field_ref field) (field_ref other)) (
        compare-accepted host binds env op field (field_ref other) _ _
          (field-resolved host binds env other))
  query-accepted host binds env (among word field keys) h =
      rw (form_of-in word field (arr (bind_refs keys))) (in-accepted host binds env field keys _ h)
  query-accepted host binds env (among_bound word field key) h =
      rw (form_of-in word field (bind_ref key))
        (bound-accepted host binds env field key _ _ _ h.0 h.1)
  query-accepted host binds env (text f spelling field key) h =
      text-accepted host binds env f spelling.is_call spelling.field_first field key h
  query-accepted host binds env (joined op p q qs) h =
      rw (form_of-logical op (tree_of p) (tree_of q) (trees_of qs)) (
        rw (query-accepted host binds env p h.0) (
          rw (query-accepted host binds env q h.1)
            (rw (queries-accepted host binds env qs h.2) refl)))
  query-accepted host binds env (negated q) h =
      rw (form_of-not (tree_of q)) (rw (query-accepted host binds env q h) refl)

  queries-accepted :
      (host : Host) (binds : Binds) (env : Bound) (qs : Queries)
      → AreBound host binds env qs
      → transform_operands host binds (trees_of qs) ≡ ok (filters_of host env qs)
  queries-accepted host binds env none_left h = refl
  queries-accepted host binds env (and_then q qs) h =
      rw (query-accepted host binds env q h.0) (rw (queries-accepted host binds env qs h.1) refl)

pub transform_filter-tree_of :
    (host : Host) (binds : Binds) (env : Bound) (q : Query)
    → IsBound host binds env q
    → transform_filter host binds (tree_of q) ≡ ok (filter_of host env q)
unfolding transform_filter
transform_filter-tree_of host binds env q h = query-accepted host binds env q h
