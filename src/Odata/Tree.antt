-- ===== src/Odata/Tree.antt =====
-- `transformFilterNode` of filterTransformer.ts: which form a node has, and the recursion.
pub mod Produced
use shared_ts_libs.Base.{Bool, true, false, Option, none, some, String, str_eq, ◌||◌, ◌&&◌}
use shared_ts_libs.Odata.Value.{
  Value, undefined, str, arr, obj, Values, nil, cons, get_prop, Host, Result, ok, throw, ◌>>=◌,
  unsupported_node,
}
use shared_ts_libs.Odata.Filter.{
  ComparisonOperator, LogicalOperator, StringFunction, Filter, Filters, logical, not_filter,
  no_more, also,
}
use shared_ts_libs.Odata.Bind.{Binds}
use shared_ts_libs.Odata.Transform.{
  comparison_operator, logical_operator, string_function_named, is_field_reference,
  transform_comparison, transform_in, transform_string_function, transform_call_function,
}

-- What the tests `isComparisonNode`, `isInNode`, ... find in a node, with the parts that they type.
pub data Form : Type 0 where
  comparison_node : ComparisonOperator → (left right : Value) → Form
  in_node : (field values : Value) → Form
  string_node : StringFunction → (first second : Value) → Form
  call_node : (method args : Value) → Form
  logical_node : LogicalOperator → Form
  not_node unknown_node : Form

abbrev or_else : Option Form → Form → Form
or_else none other = other
or_else (some form) other = form

comparison_form : String → Values → Option Form
comparison_form op (cons l (cons r nil)) = elim (comparison_operator op) [
  | none ↦ none
  | some c ↦ some (comparison_node c l r)
]
comparison_form op _ = none

in_form : String → Values → Option Form
in_form op (cons field (cons values nil)) =
    elim ((str_eq op "in" || str_eq op "eqany") && is_field_reference field) [
      | true ↦ some (in_node field values)
      | false ↦ none
    ]
in_form op _ = none

string_form : String → Values → Option Form
string_form op (cons first (cons second nil)) = elim (string_function_named op) [
  | none ↦ none
  | some f ↦ some (string_node f first second)
]
string_form op _ = none

both : Option Value → Option Value → Option Form
both (some method) (some args) = some (call_node method args)
both _ _ = none

call_parts : Value → Option Form
unfolding both
call_parts (obj ps) = both (get_prop "method" ps) (get_prop "args" ps)
call_parts _ = none

call_form : String → Values → Option Form
unfolding call_parts
call_form op (cons call nil) = elim (str_eq op "call") [ true ↦ call_parts call | false ↦ none ]
call_form op _ = none

logical_form : String → Values → Option Form
logical_form op (cons a (cons b more)) = elim (logical_operator op) [
  | none ↦ none
  | some o ↦ some (logical_node o)
]
logical_form op _ = none

not_form : String → Values → Option Form
not_form op (cons inner nil) = elim (str_eq op "not") [ true ↦ some not_node | false ↦ none ]
not_form op _ = none

-- The tests in the order of `transformFilterNode`. A head that is no text is in none of the sets.
unfoldable pub form_of : Value → Values → Form
unfolding comparison_form in_form string_form call_form logical_form not_form
form_of (str op) rest = or_else (comparison_form op rest) (
    or_else (in_form op rest) (
      or_else (string_form op rest) (
        or_else (call_form op rest)
          (or_else (logical_form op rest) (or_else (not_form op rest) unknown_node)))))
form_of _ rest = unknown_node

-- What `transformFilterNode` returns for each form. The transformed operands come as functions, so
-- that they are computed only where the source calls the transformer on them.
unfoldable pub dispatch :
    Host
    → Binds
    → (node : Value) → (Unit {0} → Result Filters)
    → (Unit {0} → Result Filter)
    → Form
    → Result Filter
dispatch host binds node operands inner (comparison_node op left right) =
    transform_comparison host binds op left right node
dispatch host binds node operands inner (in_node field values) =
    transform_in host binds field values node
dispatch host binds node operands inner (string_node f first second) =
    transform_string_function host binds f first second node
dispatch host binds node operands inner (call_node method args) =
    transform_call_function host binds method args node
dispatch host binds node operands inner (logical_node op) = operands tt >>= λ fs. ok (logical op fs)
dispatch host binds node operands inner not_node = inner tt >>= λ f. ok (not_filter f)
dispatch host binds node operands inner unknown_node = throw (unsupported_node node)

unfoldable mutual
  pub transform_filter_node : Host → Binds → Value → Result Filter
  transform_filter_node host binds (arr (cons head rest)) =
      dispatch host binds (arr (cons head rest)) (λ _. transform_operands host binds rest)
        (λ _. transform_inner host binds rest) (form_of head rest)
  transform_filter_node host binds node = throw (unsupported_node node)

  -- `operands.map((operand) => transformFilterNode(operand, ...))`
  pub transform_operands : Host → Binds → Values → Result Filters
  transform_operands host binds nil = ok no_more
  transform_operands host binds (cons operand operands) =
      transform_filter_node host binds operand >>= λ f.
      transform_operands host binds operands >>= λ fs. ok (also f fs)

  -- `const [, inner] = node`
  pub transform_inner : Host → Binds → Values → Result Filter
  transform_inner host binds nil = throw (unsupported_node undefined)
  transform_inner host binds (cons inner more) = transform_filter_node host binds inner

unfoldable pub transform_filter : Host → Binds → Value → Result Filter
unfolding transform_filter_node form_of dispatch
transform_filter host binds tree = transform_filter_node host binds tree
