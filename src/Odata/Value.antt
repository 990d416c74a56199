-- ===== src/Odata/Value.antt =====
-- The untyped values that the OData parser returns, as packages/app/odata-mapper/src reads them.
-- A number is named by its canonical text, since the package only passes numbers on, prints them
-- and uses them as property keys; a Date is named by its time value. `Host` is the part of the
-- JavaScript runtime that turns values into dates and objects into text.
use shared_ts_libs.Base.{
  Bool, true, false, not, ◌||◌, ◌≡◌, refl, List, [], ◌∷◌, Option, none, some, String, str_eq,
  if◌then◌else◌,
}

mutual
  pub data Value : Type 0 where
    null undefined : Value
    bool : Bool → Value
    num str date : String → Value
    arr : Values → Value
    obj : Props → Value

  pub data Values : Type 0 where
    nil : Values
    cons : Value → Values → Values

  pub data Props : Type 0 where
    no_props : Props
    prop : String → Value → Props → Props

-- `new Date(v)` as a time value, `String(d)` of a Date, `String(v)` of an object or an array.
pub record Host : Type 0 where
  pub time_of : Value → String
  pub date_text : String → String
  pub object_text : Value → String

-- An own property; `none` where `key in value` is false.
abbrev pub get_prop : String → Props → Option Value
get_prop k no_props = none
get_prop k (prop j v ps) = if str_eq j k then some v else get_prop k ps

abbrev pub elems : Values → List Value
elems nil = []
elems (cons v vs) = v ∷ elems vs

unfoldable pub truthy : Value → Bool
truthy null = false
truthy undefined = false
truthy (bool b) = b
truthy (num t) = not (str_eq t "0" || str_eq t "NaN")
truthy (str t) = not (str_eq t "")
truthy _ = true

unfoldable pub is_array : Value → Bool
is_array (arr vs) = true
is_array _ = false

-- `String(v)`, and what a template literal and a property key make of `v`.
unfoldable pub to_text : Host → Value → String
to_text host null = "null"
to_text host undefined = "undefined"
to_text host (bool true) = "true"
to_text host (bool false) = "false"
to_text host (num t) = t
to_text host (str t) = t
to_text host (date t) = host.date_text t
to_text host v = host.object_text v

pub data Error : Type 0 where
  invalid_bind_reference array_in_comparison cannot_resolve : Value → Error
  unsupported_comparison unsupported_in unsupported_operands unsupported_function : Value → Error
  unsupported_node : Value → Error
  exclusive_min exclusive_max : (field : String) → Error
  -- a TypeError of the runtime: a member of null or undefined, an iteration over no iterable
  type_error : Value → Error

pub data Result {ℓ} (A : Type ℓ) : Type ℓ where
  ok : A → Result A
  throw : Error → Result A

-- What is thrown is passed on; what is returned is handed to the next step.
infixl 5 ◌>>=◌
abbrev pub ◌>>=◌ {ℓ κ} :
    {Before : Type ℓ} {After : Type κ} → Result Before → (Before → Result After) → Result After
throw error >>= next = throw error
ok value >>= next = next value

-- A chain that returns has returned at each step.
pub >>=-eq-ok {ℓ κ} :
    {Before : Type ℓ} {After : Type κ} (step : Result Before) (next : Before → Result After)
    {last : After}
    → (step >>= next) ≡ ok last
    → (first : Before) × (step ≡ ok first) × (next first ≡ ok last)
>>=-eq-ok (throw error) next returns = cc
>>=-eq-ok (ok value) next returns = (value, refl, returns)
