-- ===== src/Odata/Transform.antt =====
-- filterTransformer.ts: the parser's tree becomes a filter. Each test of a node's shape is a view
-- that also hands out the node's parts. Errors carry the node, not its JSON text.
use Prim.Native.String
use shared_ts_libs.Base.{
  Bool, true, false, ◌&&◌, List, [], ◌∷◌, Option, none, some, String, str_eq, if◌then◌else◌,
}
use shared_ts_libs.Odata.Value.{
  Value, null, bool, num, str, arr, obj, Props, no_props, prop, get_prop, Host, truthy, is_array,
  to_text, Result, ok, throw, ◌>>=◌, array_in_comparison, cannot_resolve, unsupported_comparison,
  unsupported_in, unsupported_operands, unsupported_function,
}
use shared_ts_libs.Odata.Filter.{
  ComparisonOperator, eq, ne, gt, ge, lt, le, LogicalOperator, and, or, StringFunction, contains,
  startswith, endswith, substringof, tolower, toupper, Filter, comparison, in_filter,
  string_function,
}
use shared_ts_libs.Odata.Bind.{
  Binds, resolve_bind, resolve_binds, is_bind_reference, extract_bind_tuple_values, first_two,
}

unfoldable pub comparison_operator : String → Option ComparisonOperator
comparison_operator s =
    if str_eq s "eq"
    then some eq
    else if str_eq s "ne"
    then some ne
    else if str_eq s "gt"
    then some gt
    else if str_eq s "ge"
    then some ge
    else if str_eq s "lt"
    then some lt
    else if str_eq s "le"
    then some le
    else none

unfoldable pub logical_operator : String → Option LogicalOperator
logical_operator s = if str_eq s "and" then some and else if str_eq s "or" then some or else none

unfoldable pub string_function_named : String → Option StringFunction
string_function_named s =
    if str_eq s "contains"
    then some contains
    else if str_eq s "startswith"
    then some startswith
    else if str_eq s "endswith"
    then some endswith
    else if str_eq s "substringof"
    then some substringof
    else if str_eq s "tolower"
    then some tolower
    else if str_eq s "toupper"
    then some toupper
    else none

is_text : Option Value → Bool
is_text (some (str _)) = true
is_text _ = false

unfoldable pub is_field_reference : Value → Bool
unfolding is_text
is_field_reference (obj ps) = is_text (get_prop "name" ps)
is_field_reference _ = false

-- `${field.name}`
name_text : Host → Option Value → String
name_text host none = "undefined"
name_text host (some v) = to_text host v

join_path : String → String → Option String → String
join_path separator name none = name
join_path separator name (some rest) = String.◌++◌ name (String.◌++◌ separator rest)

unfoldable mutual
  unfolding name_text join_path truthy to_text

  pub get_field_path : Host → String → Value → String
  get_field_path host separator (obj ps) =
      join_path separator (name_text host (get_prop "name" ps)) (property_path host separator ps)
  get_field_path host separator v = "undefined"

  -- the path behind a truthy `field.property`
  pub property_path : Host → String → Props → Option String
  property_path host separator no_props = none
  property_path host separator (prop k v ps) = elim (str_eq k "property") [
    | true ↦ if truthy v then some (get_field_path host separator v) else none
    | false ↦ property_path host separator ps
  ]

unfoldable pub path_of : Host → Value → String
unfolding get_field_path
path_of host field = get_field_path host "/" field

no_array : Value → Result Value
unfolding is_array
no_array v = if is_array v then throw (array_in_comparison v) else ok v

resolve_literal : Value → Result Value
resolve_literal null = ok null
resolve_literal (str t) = ok (str t)
resolve_literal (num t) = ok (num t)
resolve_literal (bool b) = ok (bool b)
resolve_literal v = throw (cannot_resolve v)

unfoldable pub resolve_value : Host → Binds → Value → Result Value
unfolding no_array resolve_literal
resolve_value host binds v =
    if is_bind_reference v
    then (resolve_bind host binds v >>= no_array)
    else if is_field_reference v
    then ok (str (path_of host v))
    else resolve_literal v

unfoldable pub transform_comparison :
    Host → Binds → ComparisonOperator → Value → Value → Value → Result Filter
unfolding resolve_value
transform_comparison host binds op left right node =
    if is_field_reference left
    then (resolve_value host binds right >>= λ v. ok (comparison (path_of host left) op v))
    else if is_field_reference right
    then (resolve_value host binds left >>= λ v. ok (comparison (path_of host right) op v))
    else throw (unsupported_comparison node)

in_values_of : Host → Value → Result (List Value)
unfolding is_array
in_values_of host resolved =
    if is_array resolved then extract_bind_tuple_values host resolved else ok (resolved ∷ [])

transform_in_values : Host → Binds → Value → Value → Result (List Value)
unfolding in_values_of
transform_in_values host binds (arr refs) node = resolve_binds host binds refs
transform_in_values host binds ref node =
    if is_bind_reference ref
    then (resolve_bind host binds ref >>= in_values_of host)
    else throw (unsupported_in node)

unfoldable pub transform_in : Host → Binds → Value → Value → Value → Result Filter
unfolding transform_in_values
transform_in host binds field values node = do
  vs ← transform_in_values host binds values node
  ok (in_filter (path_of host field) vs)

-- The text argument of a string function: `String(resolveBind(binds, ref))`.
text_filter : Host → Binds → StringFunction → Value → Value → Result Filter
unfolding to_text
text_filter host binds function field ref = do
  value ← resolve_bind host binds ref
  ok (string_function function (path_of host field) (to_text host value))

is_field_then_bind : Value → Value → Bool
is_field_then_bind first second = is_field_reference first && is_bind_reference second

-- `substringof` tries the order (value, field) first, the other functions (field, value).
string_operands : Host → Binds → StringFunction → Value → Value → Value → Result Filter
unfolding text_filter is_field_then_bind
string_operands host binds substringof first second node =
    if is_field_then_bind second first
    then text_filter host binds substringof second first
    else if is_field_then_bind first second
    then text_filter host binds substringof first second
    else throw (unsupported_operands node)
string_operands host binds function first second node =
    if is_field_then_bind first second
    then text_filter host binds function first second
    else if is_field_then_bind second first
    then text_filter host binds function second first
    else throw (unsupported_operands node)

unfoldable pub transform_string_function :
    Host → Binds → StringFunction → Value → Value → Value → Result Filter
unfolding string_operands
transform_string_function host binds function first second node =
    string_operands host binds function first second node

method_named : Value → Option StringFunction
unfolding string_function_named
method_named (str name) = string_function_named name
method_named _ = none

call_operands : Host → Binds → Option StringFunction → Value → Value → Value → Result Filter
unfolding string_operands first_two
call_operands host binds none method args node = throw (unsupported_function method)
call_operands host binds (some function) method args node = do
  pair ← first_two args
  string_operands host binds function pair.0 pair.1 node

unfoldable pub transform_call_function : Host → Binds → Value → Value → Value → Result Filter
unfolding method_named call_operands
transform_call_function host binds method args node =
    call_operands host binds (method_named method) method args node
