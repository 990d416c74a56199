-- ===== src/Snapshot/Diff.antt =====
-- `diffSchemaSnapshots` and `deepEqual`.
use shared_ts_libs.Base.{
  Bool, true, false, ◌&&◌, ◌||◌, ◌==◌, List, [], ◌∷◌, ◌++◌, Option, none, some, Text, text_eq,
  every, some_of, if◌then◌else◌,
}
use shared_ts_libs.Snapshot.Keys.{
  Value, undefined, arr, obj, Items, nil, cons, Fields, end, field, strict_equal, get_field,
  sorted_keys, all_keys, keys_equal,
}

pub data DifferenceKind : Type 0 where
  added removed changed : DifferenceKind

pub record SnapshotDifference : Type 0 where
  pub path : Text
  pub kind : DifferenceKind
  pub before : Option Value
  pub after : Option Value

-- A quote gets a backslash before it.
escape_quotes : Text → Text
escape_quotes [] = []
escape_quotes (c ∷ t) = let rest = escape_quotes t in if c == 34 then 92 ∷ 34 ∷ rest else c ∷ rest

-- Keys with a dot or a space stand in brackets and quotes.
unfoldable pub escape_key : Text → Text
unfolding escape_quotes
escape_key key =
    if some_of (λ c. c == 46) key || some_of (λ c. c == 32) key
    then 91 ∷ 34 ∷ (escape_quotes key ++ 34 ∷ 93 ∷ [])
    else key

after_path : Text → Text → Text
after_path path [] = path ++ 46 ∷ []
after_path path (c ∷ escaped) = if c == 91 then path ++ c ∷ escaped else path ++ 46 ∷ c ∷ escaped

unfoldable pub join_path : Text → Text → Text
unfolding escape_key after_path
join_path [] key = escape_key key
join_path (c ∷ path) key = after_path (c ∷ path) (escape_key key)

unfoldable mutual
  pub deep_equal : Value → Value → Bool
  deep_equal (obj f) (obj g) =
      keys_equal (sorted_keys f) (sorted_keys g) && every (deep_at f g) (sorted_keys f)
  deep_equal (arr xs) (arr ys) = deep_items xs ys
  deep_equal v w = strict_equal v w

  pub deep_items : Items → Items → Bool
  deep_items nil nil = true
  deep_items nil (cons y ys) = false
  deep_items (cons x xs) nil = false
  deep_items (cons x xs) (cons y ys) = deep_equal x y && deep_items xs ys

  -- `deepEqual(a[key], b[key])`, for a key of `a`.
  pub deep_at : Fields → Fields → Text → Bool
  deep_at end g key = true
  deep_at (field k v f) g key =
      if text_eq k key
      then elim (get_field key g) [ none ↦ deep_equal v undefined | some w ↦ deep_equal v w ]
      else deep_at f g key

-- The differences of values that are no two objects and no two arrays.
unfoldable pub missing_or_changed : Value → Value → Text → List SnapshotDifference
missing_or_changed undefined w path =
    record { path = path; kind = added; before = none; after = some w } ∷ []
missing_or_changed v undefined path =
    record { path = path; kind = removed; before = some v; after = none } ∷ []
missing_or_changed v w path =
    record { path = path; kind = changed; before = some v; after = some w } ∷ []

unfoldable pub diff_primitives : Value → Value → Text → List SnapshotDifference
unfolding missing_or_changed
diff_primitives v w path = if strict_equal v w then [] else missing_or_changed v w path

unfoldable pub diff_arrays : Items → Items → Text → List SnapshotDifference
diff_arrays xs ys path =
    if deep_items xs ys
    then []
    else record { path = path; kind = changed; before = some (arr xs); after = some (arr ys) } ∷ []

-- `for (const key of keys)`, with the differences of each key.
unfoldable pub for_each : (Text → List SnapshotDifference) → List Text → List SnapshotDifference
for_each differences [] = []
for_each differences (k ∷ ks) = differences k ++ for_each differences ks

unfoldable mutual
  pub diff_value : Value → Value → Text → List SnapshotDifference
  diff_value (obj f) (obj g) path = for_each (diff_at f g path) (all_keys f g)
  diff_value (arr xs) (arr ys) path = diff_arrays xs ys path
  diff_value v w path = diff_primitives v w path

  -- One round of the loop over the keys. A key that neither object has does not occur.
  pub diff_at : Fields → Fields → Text → Text → List SnapshotDifference
  diff_at end g path key = elim (get_field key g) [
    | none ↦ []
    | some w ↦
        record { path = join_path path key; kind = added; before = none; after = some w } ∷ []
  ]
  diff_at (field k v f) g path key =
      if text_eq k key
      then elim (get_field key g) [
        | none ↦
            record { path = join_path path key; kind = removed; before = some v; after = none } ∷ []
        | some w ↦ diff_value v w (join_path path key)
      ]
      else diff_at f g path key

pub record SnapshotDiff : Type 0 where
  pub equal : Bool
  pub differences : List SnapshotDifference

unfoldable pub diff_schema_snapshots : Value → Value → SnapshotDiff
unfolding diff_value
diff_schema_snapshots before after =
    let differences = diff_value before after [] in
    record { equal = elim differences [ [] ↦ true | d ∷ ds ↦ false ]; differences = differences }
