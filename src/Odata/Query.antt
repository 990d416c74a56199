-- ===== src/Odata/Query.antt =====
-- The trees that types.ts names, as far as a filter is made of them: queries, the tree of a query, and the
-- filter that it stands for.
pub mod Accepted
use Prim.Native.String
use shared_ts_libs.Base.{Bool, true, false, ◌≡◌, List, [], ◌∷◌, String, map}
use shared_ts_libs.Odata.Value.{
  Value, null, bool, num, str, arr, obj, Values, nil, cons, no_props, prop, Host, is_array, to_text,
  ok,
}
use shared_ts_libs.Odata.Filter.{
  ComparisonOperator, eq, ne, gt, ge, lt, le, LogicalOperator, and, or, StringFunction, Filter,
  Filters, comparison, in_filter, string_function, logical, not_filter, no_more, also,
}
use shared_ts_libs.Odata.Bind.{Binds, resolve_bind, as_date}
use shared_ts_libs.Odata.Collect.{function_text}

-- A field, or a property of one.
pub data Field : Type 0 where
  named : String → Field
  within : String → Field → Field

-- What a field is compared with: a bind, named by its number, or a literal.
pub data Single : Type 0 where
  bound : String → Single
  nothing : Single
  written : String → Single
  number : String → Single
  truth : Bool → Single

-- The order of the operands of a string function, and whether it is a node [function, first, second] or
-- one of `call`.
pub record Spelling : Type 0 where
  pub field_first : Bool
  pub is_call : Bool

-- `in` and `eqany`
pub data InWord : Type 0 where
  in_word eqany : InWord

mutual
  pub data Query : Type 0 where
    compare : ComparisonOperator → Field → Single → Query
    compared : ComparisonOperator → Single → Field → Query
    alike : ComparisonOperator → Field → Field → Query
    among : InWord → Field → (keys : List String) → Query
    among_bound : InWord → Field → (key : String) → Query
    text : StringFunction → Spelling → Field → (key : String) → Query
    joined : LogicalOperator → Query → Query → Queries → Query
    negated : Query → Query

  pub data Queries : Type 0 where
    none_left : Queries
    and_then : Query → Queries → Queries

abbrev pub operator_text : ComparisonOperator → String
operator_text eq = "eq"
operator_text ne = "ne"
operator_text gt = "gt"
operator_text ge = "ge"
operator_text lt = "lt"
operator_text le = "le"

abbrev pub logical_text : LogicalOperator → String
logical_text and = "and"
logical_text or = "or"

unfoldable pub field_ref : Field → Value
field_ref (named name) = obj (prop "name" (str name) no_props)
field_ref (within name field) =
    obj (prop "name" (str name) (prop "property" (field_ref field) no_props))

unfoldable pub path_text : Field → String
path_text (named name) = name
path_text (within name field) = String.◌++◌ name (String.◌++◌ "/" (path_text field))

abbrev pub in_text : InWord → String
in_text in_word = "in"
in_text eqany = "eqany"

abbrev pub bind_ref : String → Value
bind_ref key = obj (prop "bind" (num key) no_props)

abbrev pub bind_refs : List String → Values
bind_refs [] = nil
bind_refs (key ∷ keys) = cons (bind_ref key) (bind_refs keys)

-- the node [operator, left, right]
abbrev pub node : String → Value → Value → Value
node operator left right = arr (cons (str operator) (cons left (cons right nil)))

abbrev pub single_node : Single → Value
single_node (bound key) = bind_ref key
single_node nothing = null
single_node (written t) = str t
single_node (number t) = num t
single_node (truth b) = bool b

abbrev pub pair : Value → Value → Values
pair a b = cons a (cons b nil)

abbrev pub text_operands : Bool → Value → Value → Values
text_operands true field bind = pair field bind
text_operands false field bind = pair bind field

abbrev pub text_node : StringFunction → Bool → Values → Value
text_node f false operands = arr (cons (str (function_text f)) operands)
text_node f true operands = arr (
    cons (str "call") (
      cons (obj (prop "method" (str (function_text f)) (prop "args" (arr operands) no_props))) nil))

unfoldable mutual
  pub tree_of : Query → Value
  tree_of (compare op field s) = node (operator_text op) (field_ref field) (single_node s)
  tree_of (compared op s field) = node (operator_text op) (single_node s) (field_ref field)
  tree_of (alike op field other) = node (operator_text op) (field_ref field) (field_ref other)
  tree_of (among word field keys) = node (in_text word) (field_ref field) (arr (bind_refs keys))
  tree_of (among_bound word field key) = node (in_text word) (field_ref field) (bind_ref key)
  tree_of (text f spelling field key) =
      text_node f spelling.is_call
        (text_operands spelling.field_first (field_ref field) (bind_ref key))
  tree_of (joined op p q qs) =
      arr (cons (str (logical_text op)) (cons (tree_of p) (cons (tree_of q) (trees_of qs))))
  tree_of (negated q) = arr (cons (str "not") (cons (tree_of q) nil))

  pub trees_of : Queries → Values
  trees_of none_left = nil
  trees_of (and_then q qs) = cons (tree_of q) (trees_of qs)

-- What is bound: the value of each bind, and the values that a bind lists for `in`.
pub record Bound : Type 0 where
  pub value : String → Value
  pub listed : String → List Value

abbrev pub single_value : Bound → Single → Value
single_value env (bound key) = env.value key
single_value env nothing = null
single_value env (written t) = str t
single_value env (number t) = num t
single_value env (truth b) = bool b

-- The filter of a query, where `env` says what is bound.
unfoldable mutual
  pub filter_of : Host → Bound → Query → Filter
  filter_of host env (compare op field s) = comparison (path_text field) op (single_value env s)
  filter_of host env (compared op s field) = comparison (path_text field) op (single_value env s)
  filter_of host env (alike op field other) =
      comparison (path_text field) op (str (path_text other))
  filter_of host env (among word field keys) = in_filter (path_text field) (map env.value keys)
  filter_of host env (among_bound word field key) = in_filter (path_text field) (env.listed key)
  filter_of host env (text f spelling field key) =
      string_function f (path_text field) (to_text host (env.value key))
  filter_of host env (joined op p q qs) =
      logical op
        (also (filter_of host env p) (also (filter_of host env q) (filters_of host env qs)))
  filter_of host env (negated q) = not_filter (filter_of host env q)

  pub filters_of : Host → Bound → Queries → Filters
  filters_of host env none_left = no_more
  filters_of host env (and_then q qs) = also (filter_of host env q) (filters_of host env qs)

-- The types of the tuples that a list of binds holds, and what a value of the type stands for.
pub data TupleType : Type 0 where
  text_type real_type boolean_type date_type date_time_type null_type duration_type : TupleType

abbrev pub type_text : TupleType → String
type_text text_type = "Text"
type_text real_type = "Real"
type_text boolean_type = "Boolean"
type_text date_type = "Date"
type_text date_time_type = "Date Time"
type_text null_type = "Null"
type_text duration_type = "Duration"

abbrev pub meaning : Host → TupleType → Value → Value
meaning host date_type v = as_date host v
meaning host date_time_type v = as_date host v
meaning host null_type v = null
meaning host t v = v

abbrev pub tuples : List (TupleType × Value) → Values
tuples [] = nil
tuples ((t, v) ∷ ts) = cons (arr (pair (str (type_text t)) v)) (tuples ts)

abbrev pub meanings : Host → List (TupleType × Value) → List Value
meanings host [] = []
meanings host ((t, v) ∷ ts) = meaning host t v ∷ meanings host ts

-- A bind for `in` is a value, for itself, or a list of tuples.
pub data Lists (host : Host) : Value → List Value → Type 0 where
  single : {v : Value} → is_array v ≡ false → Lists host v (v ∷ [])
  several : (ts : List (TupleType × Value)) → Lists host (arr (tuples ts)) (meanings host ts)

-- `binds` holds the value of the bind `key`.
abbrev pub Holds : Host → Binds → Bound → String → Type 0
Holds host binds env key = resolve_bind host binds (bind_ref key) ≡ ok (env.value key)

abbrev pub AllHeld : Host → Binds → Bound → List String → Type 0
AllHeld host binds env [] = Unit
AllHeld host binds env (key ∷ keys) = Holds host binds env key × AllHeld host binds env keys

abbrev pub IsSingle : Host → Binds → Bound → Single → Type 0
IsSingle host binds env (bound key) = Holds host binds env key × (is_array (env.value key) ≡ false)
IsSingle host binds env s = Unit

-- `binds` holds every bind of a query: a value that is compared is no array, and one for `in` is listed.
abbrev mutual
  pub IsBound : Host → Binds → Bound → Query → Type 0
  IsBound host binds env (compare op field s) = IsSingle host binds env s
  IsBound host binds env (compared op s field) = IsSingle host binds env s
  IsBound host binds env (alike op field other) = Unit
  IsBound host binds env (among word field keys) = AllHeld host binds env keys
  IsBound host binds env (among_bound word field key) =
      Holds host binds env key × Lists host (env.value key) (env.listed key)
  IsBound host binds env (text f spelling field key) = Holds host binds env key
  IsBound host binds env (joined op p q qs) =
      IsBound host binds env p × IsBound host binds env q × AreBound host binds env qs
  IsBound host binds env (negated q) = IsBound host binds env q

  pub AreBound : Host → Binds → Bound → Queries → Type 0
  AreBound host binds env none_left = Unit
  AreBound host binds env (and_then q qs) = IsBound host binds env q × AreBound host binds env qs
