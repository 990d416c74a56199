-- ===== src/Snapshot/Tests.antt =====
-- Snapshots of a schema with a table.
use shared_ts_libs.Base.{Bool, true, false, ◌≡◌, refl, ◌↔◌, [], ◌∷◌, codes, map}
use shared_ts_libs.Snapshot.Keys.{
  Value, null, flag, text, arr, obj, nil, cons, end, field, get_field, sorted_keys, all_keys,
  keys_equal, strict_equal,
}
use shared_ts_libs.Snapshot.Diff.{
  SnapshotDifference, deep_equal, diff_value, diff_arrays, diff_primitives, missing_or_changed,
  for_each, join_path, diff_schema_snapshots,
}
use shared_ts_libs.Snapshot.Same.{Same}
use shared_ts_libs.Snapshot.Differences.{diff_schema_snapshots_iff}

abbrev column : Bool → Value
column nullable =
    obj
      (field (codes "type") (text (codes "integer")) (field (codes "nullable") (flag nullable) end))

abbrev column_reordered : Value
column_reordered =
    obj (field (codes "nullable") (flag true) (field (codes "type") (text (codes "integer")) end))

abbrev before : Value
before = obj (
    field (codes "my.id") (column true)
      (field (codes "key") (arr (cons (text (codes "id")) nil)) end))

abbrev after : Value
after = obj (
    field (codes "extra") null
      (field (codes "my.id") (column false) (field (codes "key") (arr nil) end)))

snapshots : Unit {0}
unfolding diff_schema_snapshots diff_value diff_arrays diff_primitives missing_or_changed for_each
    join_path deep_equal get_field sorted_keys all_keys keys_equal strict_equal
snapshots = tt

diff_tests :
    ((diff_schema_snapshots (column true) column_reordered).equal ≡ true)
    × (map (λ (d : SnapshotDifference). d.path) (diff_schema_snapshots before after).differences
        ≡ codes "extra" ∷ codes "key" ∷ codes "[\"my.id\"].nullable" ∷ [])
unfolding snapshots
diff_tests = (refl, refl)

diff_schema_snapshots_iff_example :
    (((diff_schema_snapshots before after).equal ≡ true) ↔ Same before after)
    × (((diff_schema_snapshots before after).differences ≡ []) ↔ Same before after)
diff_schema_snapshots_iff_example = diff_schema_snapshots_iff before after
