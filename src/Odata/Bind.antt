-- ===== src/Odata/Bind.antt =====
-- bindResolver.ts: what a bind reference stands for. `binds` is the parser's array with its named
-- properties, by property key; members that an array inherits are not modelled.
use Prim.Native.Char.{code}
use Prim.Native.String.{[] as no_text, ◌∷◌ as char_cons}
use shared_ts_libs.Base.{
  ℕ, zero, suc, Bool, true, false, ◌||◌, List, [], ◌∷◌, Option, none, some, String, str_eq, Dict,
  lookup, contains, ◌==◌, if◌then◌else◌,
}
use shared_ts_libs.Odata.Value.{
  Value, null, undefined, elems, num, str, date, arr, obj, Values, nil, cons, get_prop, Host,
  truthy, to_text, Result, ok, throw, ◌>>=◌, invalid_bind_reference, type_error,
}

abbrev pub Binds : Type 0
Binds = Dict Value

abbrev or_undefined : Option Value → Value
or_undefined none = undefined
or_undefined (some v) = v

-- `ref.bind`
get_bind_key : Value → Result Value
get_bind_key null = throw (type_error null)
get_bind_key undefined = throw (type_error undefined)
get_bind_key (obj ps) = ok (or_undefined (get_prop "bind" ps))
get_bind_key _ = ok undefined

abbrev nth : ℕ → Values → Value
nth i nil = undefined
nth zero (cons v vs) = v
nth (suc i) (cons v vs) = nth i vs

-- `const [first, second] = v`, which also takes the characters of a text.
unfoldable pub first_two : Value → Result (Value × Value)
first_two (arr vs) = ok (nth 0 vs, nth 1 vs)
first_two (str no_text) = ok (undefined, undefined)
first_two (str (char_cons c no_text)) = ok (str (char_cons c no_text), undefined)
first_two (str (char_cons c (char_cons d _))) =
    ok (str (char_cons c no_text), str (char_cons d no_text))
first_two v = throw (type_error v)

unfoldable pub as_date : Host → Value → Value
as_date host (date t) = date t
as_date host v = date (host.time_of v)

-- The value of a bind tuple [type, value]. 'Text', 'Real', 'Boolean', 'Duration' and the default
-- case return the value as it is.
typed_value : Host → Value → Value → Value
unfolding as_date
typed_value host (str type) value =
    if str_eq type "Date" || str_eq type "Date Time"
    then as_date host value
    else if str_eq type "Null"
    then null
    else value
typed_value host type value = value

read_bind : Host → Value → Value → Result Value
unfolding truthy first_two typed_value
read_bind host key bind =
    if truthy bind
    then (first_two bind >>= λ pair. ok (typed_value host pair.0 pair.1))
    else throw (invalid_bind_reference key)

-- `undefined` at a missing key is falsy, as is every other value that `!bind` rejects.
unfoldable pub resolve_bind : Host → Binds → Value → Result Value
unfolding get_bind_key read_bind to_text
resolve_bind host binds ref = do
  key ← get_bind_key ref
  let bind = or_undefined (lookup (to_text host key) binds)
  read_bind host key bind

unfoldable pub resolve_binds : Host → Binds → Values → Result (List Value)
resolve_binds host binds nil = ok []
resolve_binds host binds (cons ref refs) = do
  value ← resolve_bind host binds ref
  values ← resolve_binds host binds refs
  ok (value ∷ values)

starts_with_at : String → Bool
starts_with_at no_text = false
starts_with_at (char_cons c _) = code c == b'@'

is_bind_key : Option Value → Bool
unfolding starts_with_at
is_bind_key (some (num _)) = true
is_bind_key (some (str key)) = starts_with_at key
is_bind_key _ = false

unfoldable pub is_bind_reference : Value → Bool
unfolding is_bind_key
is_bind_reference (obj ps) = is_bind_key (get_prop "bind" ps)
is_bind_reference _ = false

abbrev bind_types : List String
bind_types = "Text" ∷ "Real" ∷ "Boolean" ∷ "Date" ∷ "Date Time" ∷ "Null" ∷ "Duration" ∷ []

is_bind_tuple : Value → Bool
is_bind_tuple (arr (cons (str type) (cons _ nil))) = contains type bind_types
is_bind_tuple _ = false

-- The two switches of the source agree case by case.
extract_bind_tuple_value : Host → Value → Result Value
unfolding typed_value first_two
extract_bind_tuple_value host tuple = do pair ← first_two tuple; ok (typed_value host pair.0 pair.1)

unfoldable pub extract_all : Host → Values → Result (List Value)
unfolding extract_bind_tuple_value
extract_all host nil = ok []
extract_all host (cons tuple tuples) = do
  value ← extract_bind_tuple_value host tuple
  values ← extract_all host tuples
  ok (value ∷ values)

unfoldable pub extract_bind_tuple_values : Host → Value → Result (List Value)
unfolding is_bind_tuple extract_all
extract_bind_tuple_values host (arr (cons first rest)) =
    if is_bind_tuple first then extract_all host (cons first rest) else ok (first ∷ elems rest)
extract_bind_tuple_values host _ = ok []
