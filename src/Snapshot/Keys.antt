-- ===== src/Snapshot/Keys.antt =====
-- Values of a snapshot, and the keys of its objects. Texts are lists of code units.
use shared_ts_libs.Base.{
  Bool, true, false, ◌&&◌, ◌==◌, ltb, List, [], ◌∷◌, Option, none, some, Text, text_eq,
  if◌then◌else◌,
}

-- A snapshot holds no numbers (snapshot-schema/types.ts). Where the fields of an object repeat a key, the
-- first counts.
mutual
  pub data Value : Type 0 where
    undefined : Value
    null : Value
    flag : Bool → Value
    text : Text → Value
    arr : Items → Value
    obj : Fields → Value

  pub data Items : Type 0 where
    nil : Items
    cons : Value → Items → Items

  pub data Fields : Type 0 where
    end : Fields
    field : Text → Value → Fields → Fields

-- `before === after`: two snapshots share no object.
unfoldable pub strict_equal : Value → Value → Bool
strict_equal undefined undefined = true
strict_equal null null = true
strict_equal (flag true) (flag b) = b
strict_equal (flag false) (flag true) = false
strict_equal (flag false) (flag false) = true
strict_equal (text s) (text t) = text_eq s t
strict_equal v w = false

unfoldable pub get_field : Text → Fields → Option Value
get_field key end = none
get_field key (field k v fs) = if text_eq k key then some v else get_field key fs

-- The order of `sort`: by code units.
unfoldable pub lt_text : Text → Text → Bool
lt_text [] [] = false
lt_text [] (d ∷ t) = true
lt_text (c ∷ s) [] = false
lt_text (c ∷ s) (d ∷ t) = if c == d then lt_text s t else ltb c d

-- A key takes its place among sorted keys, once.
unfoldable pub insert_key : Text → List Text → List Text
unfolding lt_text
insert_key k [] = k ∷ []
insert_key k (j ∷ js) =
    if text_eq k j then j ∷ js else if lt_text k j then k ∷ j ∷ js else j ∷ insert_key k js

unfoldable pub add_keys : Fields → List Text → List Text
unfolding insert_key
add_keys end ks = ks
add_keys (field k v fs) ks = insert_key k (add_keys fs ks)

-- `Object.keys(value).sort()`
unfoldable pub sorted_keys : Fields → List Text
unfolding add_keys
sorted_keys fs = add_keys fs []

-- `[...new Set([...Object.keys(before), ...Object.keys(after)])].sort()`
unfoldable pub all_keys : Fields → Fields → List Text
unfolding add_keys
all_keys before after = add_keys before (add_keys after [])

unfoldable pub keys_equal : List Text → List Text → Bool
keys_equal [] [] = true
keys_equal [] (k ∷ ks) = false
keys_equal (j ∷ js) [] = false
keys_equal (j ∷ js) (k ∷ ks) = text_eq j k && keys_equal js ks
