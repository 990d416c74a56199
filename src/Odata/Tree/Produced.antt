-- ===== src/Odata/Tree/Produced.antt =====
-- What the transformer can produce.
use shared_ts_libs.Base.{ℕ, suc, ◌≤◌, ◌≡◌, refl, ap, false, some, String, arith}
use shared_ts_libs.Odata.Value.{
  Value, str, arr, Values, nil, cons, Host, is_array, Result, ok, throw, ◌>>=◌, >>=-eq-ok,
}
use shared_ts_libs.Odata.Filter.{
  ComparisonOperator, LogicalOperator, StringFunction, Filter, Filters, comparison, in_filter,
  not_in_filter, string_function, logical, not_filter, no_more, also,
}
use shared_ts_libs.Odata.Bind.{Binds}
use shared_ts_libs.Odata.Transform.{
  resolve_value, transform_comparison, transform_in, transform_string_function,
  transform_call_function,
}
use shared_ts_libs.Odata.Tree.{
  Form, comparison_node, in_node, string_node, call_node, logical_node, not_node, unknown_node,
  form_of, logical_form, dispatch, transform_filter_node, transform_operands, transform_inner,
  transform_filter,
}

abbrev pub count : Filters → ℕ
count no_more = 0
count (also f fs) = suc (count fs)

-- No `not-in` filter, no array compared with a field, and at least two parts to a logical filter.
abbrev mutual
  pub IsProduced : Filter → Type 0
  IsProduced (comparison field op v) = is_array v ≡ false
  IsProduced (in_filter field vs) = Unit
  IsProduced (not_in_filter field vs) = ⊥
  IsProduced (string_function f field v) = Unit
  IsProduced (logical op fs) = (2 ≤ count fs) × AreProduced fs
  IsProduced (not_filter f) = IsProduced f

  pub AreProduced : Filters → Type 0
  AreProduced no_more = Unit
  AreProduced (also f fs) = IsProduced f × AreProduced fs

-- A value that a comparison gets is no array.
resolve_value-not_array :
    (host : Host) (binds : Binds) (v : Value) {w : Value}
    → resolve_value host binds v ≡ ok w
    → is_array w ≡ false
unfolding resolve_value is_array
resolve_value-not_array host binds v h = ground arith

module _ (host : Host) (binds : Binds) where
  transform_comparison-IsProduced :
      (op : ComparisonOperator) (l r node : Value) {f : Filter}
      → transform_comparison host binds op l r node ≡ ok f
      → IsProduced f
  unfolding transform_comparison
  transform_comparison-IsProduced op l r node h =
      ground (arith, resolve_value-not_array host binds l, resolve_value-not_array host binds r)

  transform_in-IsProduced :
      (field values node : Value) {f : Filter}
      → transform_in host binds field values node ≡ ok f
      → IsProduced f
  unfolding transform_in
  transform_in-IsProduced field values node h = ground arith

  transform_string_function-IsProduced :
      (fn : StringFunction) (a b node : Value) {f : Filter}
      → transform_string_function host binds fn a b node ≡ ok f
      → IsProduced f
  unfolding transform_string_function
  transform_string_function-IsProduced fn a b node h = ground arith

  transform_call_function-IsProduced :
      (method args node : Value) {f : Filter}
      → transform_call_function host binds method args node ≡ ok f
      → IsProduced f
  unfolding transform_call_function
  transform_call_function-IsProduced method args node h = ground arith

-- A logical node has two operands at least, and the transformer keeps each of them.
abbrev count_values : Values → ℕ
count_values nil = 0
count_values (cons v vs) = suc (count_values vs)

logical_form-count :
    (op : String) (rest : Values) {o : LogicalOperator}
    → logical_form op rest ≡ some (logical_node o)
    → 2 ≤ count_values rest
unfolding logical_form
logical_form-count op nil h = cc
logical_form-count op (cons a nil) h = cc
logical_form-count op (cons a (cons b more)) h = omega arith

form_of-count :
    (head : Value) (rest : Values) {o : LogicalOperator}
    → form_of head rest ≡ logical_node o
    → 2 ≤ count_values rest
unfolding form_of
form_of-count (str op) nil h = ground arith
form_of-count (str op) (cons a nil) h = ground arith
form_of-count (str op) (cons a (cons b more)) h = omega arith
form_of-count _ rest h = cc

-- Inversion of one round of `transform_operands`.
also-eq-ok :
    (m : Result Filter) (ms : Result Filters) {gs : Filters}
    → (m >>= λ f. ms >>= λ fs. ok (also f fs)) ≡ ok gs
    → (f : Filter) × (fs : Filters) × (m ≡ ok f) × (ms ≡ ok fs) × (gs ≡ also f fs)
also-eq-ok (ok f) (ok fs) h = (f, fs, refl, refl, cc)
also-eq-ok (ok f) (throw e) h = cc
also-eq-ok (throw e) ms h = cc

count-transform_operands :
    (host : Host) (binds : Binds) (vs : Values) {fs : Filters}
    → transform_operands host binds vs ≡ ok fs
    → count fs ≡ count_values vs
unfolding transform_operands
count-transform_operands host binds nil h = ground arith
count-transform_operands host binds (cons v vs) h =
    let (f, fs, hf, hfs, e) =
      also-eq-ok (transform_filter_node host binds v) (transform_operands host binds vs) h in
    rw e (ap suc (count-transform_operands host binds vs hfs))

dispatch-IsProduced :
    (host : Host) (binds : Binds) (node : Value) (operands : Unit {0} → Result Filters)
    (inner : Unit {0} → Result Filter) (form : Form)
    → ((o : LogicalOperator)
        → form ≡ logical_node o
        → (fs : Filters) → operands tt ≡ ok fs
        → IsProduced (logical o fs))
    → ((f : Filter) → inner tt ≡ ok f → IsProduced f)
    → (f : Filter) → dispatch host binds node operands inner form ≡ ok f
    → IsProduced f
unfolding dispatch
dispatch-IsProduced host binds node operands inner (comparison_node op l r) hs hi f h =
    transform_comparison-IsProduced host binds op l r node h
dispatch-IsProduced host binds node operands inner (in_node field values) hs hi f h =
    transform_in-IsProduced host binds field values node h
dispatch-IsProduced host binds node operands inner (string_node fn a b) hs hi f h =
    transform_string_function-IsProduced host binds fn a b node h
dispatch-IsProduced host binds node operands inner (call_node method args) hs hi f h =
    transform_call_function-IsProduced host binds method args node h
dispatch-IsProduced host binds node operands inner (logical_node op) hs hi f h =
    let (fs, found, e) = >>=-eq-ok (operands tt) (λ fs. ok (logical op fs)) h in
    let same : f ≡ logical op fs = cc in rw same (hs op refl fs found)
dispatch-IsProduced host binds node operands inner not_node hs hi f h =
    let (g, found, e) = >>=-eq-ok (inner tt) (λ g. ok (not_filter g)) h in
    let same : f ≡ not_filter g = cc in rw same (hi g found)
dispatch-IsProduced host binds node operands inner unknown_node hs hi f h = cc

mutual
  unfolding transform_filter_node transform_operands transform_inner

  node-IsProduced :
      (host : Host) (binds : Binds) (node : Value) (f : Filter)
      → transform_filter_node host binds node ≡ ok f
      → IsProduced f
  node-IsProduced host binds (arr (cons head rest)) f h =
      dispatch-IsProduced host binds (arr (cons head rest))
        (λ _. transform_operands host binds rest) (λ _. transform_inner host binds rest)
        (form_of head rest)
        (λ o e fs hfs. (
          omega (arith, form_of-count head rest e, count-transform_operands host binds rest hfs),
          operands-AreProduced host binds rest fs hfs,
        ))
        (inner-IsProduced host binds rest) f h
  node-IsProduced host binds _ f h = cc

  operands-AreProduced :
      (host : Host) (binds : Binds) (vs : Values) (fs : Filters)
      → transform_operands host binds vs ≡ ok fs
      → AreProduced fs
  operands-AreProduced host binds nil fs h = let same : fs ≡ no_more = cc in rw same tt
  operands-AreProduced host binds (cons v vs) gs h =
      let (f, fs, hf, hfs, e) =
        also-eq-ok (transform_filter_node host binds v) (transform_operands host binds vs) h in
      rw e (node-IsProduced host binds v f hf, operands-AreProduced host binds vs fs hfs)

  inner-IsProduced :
      (host : Host) (binds : Binds) (vs : Values) (f : Filter)
      → transform_inner host binds vs ≡ ok f
      → IsProduced f
  inner-IsProduced host binds nil f h = cc
  inner-IsProduced host binds (cons v vs) f h = node-IsProduced host binds v f h

-- Whatever the parser's tree and binds, a filter that the transformer returns holds no `not-in`
-- filter and no comparison with an array, and each of its logical filters has two parts at least.
pub transform_filter-IsProduced :
    (host : Host) (binds : Binds) (tree : Value) (f : Filter)
    → transform_filter host binds tree ≡ ok f
    → IsProduced f
unfolding transform_filter
transform_filter-IsProduced host binds tree f h = node-IsProduced host binds tree f h
