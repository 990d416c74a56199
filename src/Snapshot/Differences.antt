-- ===== src/Snapshot/Differences.antt =====
-- Two snapshots have no differences exactly when they are the same.
use shared_ts_libs.Base.{
  ◌↔◌, true, false, ◌≡◌, refl, arith, ◌||◌, List, [], ◌∷◌, ◌++◌, Text, text_eq, text_eq→eq,
  text_eq_refl, ◌∙◌, sym, ap, Bool-cases, inl, inr, Option-cases,
}
use shared_ts_libs.Snapshot.Keys.{
  Value, undefined, null, flag, text, arr, obj, Fields, end, field, get_field, all_keys,
  strict_equal,
}
use shared_ts_libs.Snapshot.Ascending.{contains_key}
use shared_ts_libs.Snapshot.Diff.{
  SnapshotDifference, deep_items, diff_arrays, diff_primitives, missing_or_changed, for_each,
  diff_value, diff_at, join_path, diff_schema_snapshots,
}
use shared_ts_libs.Snapshot.Same.{
  Same, same_undefined, same_null, same_flag, same_text, same_arr, same_obj, SameOption, both_none,
  both_some, has_field, SameOption-some, same_presence, contains_key-all_keys,
}
use shared_ts_libs.Snapshot.Deep.{deep_items_iff}

append-nil_both : (xs ys : List SnapshotDifference) → xs ++ ys ≡ [] → (xs ≡ []) × (ys ≡ [])
append-nil_both [] ys h = (refl, h)
append-nil_both (x ∷ xs) ys h = absurd (ground arith)

module _ (differences : Text → List SnapshotDifference) where
  for_each_nil : (ks : List Text) → ((k : Text) → differences k ≡ []) → for_each differences ks ≡ []
  unfolding for_each
  for_each_nil [] h = refl
  for_each_nil (k ∷ ks) h = rw (h k) (for_each_nil ks h)

  for_each-contains :
      (key : Text) (ks : List Text)
      → for_each differences ks ≡ []
      → contains_key key ks ≡ true
      → differences key ≡ []
  unfolding for_each
  for_each-contains key [] h c = absurd (ground arith)
  for_each-contains key (k ∷ ks) h c =
      let (here, rest) = append-nil_both (differences k) (for_each differences ks) h in
      elim (Bool-cases (text_eq k key)) [
        | inl e ↦ ap differences (sym (text_eq→eq k key e)) ∙ here
        | inr e ↦ for_each-contains key ks rest (rw e at c)
      ]

mutual
  unfolding diff_value diff_arrays diff_primitives strict_equal get_field

  Same-diff_value : (v w : Value) (path : Text) → Same v w → diff_value v w path ≡ []
  Same-diff_value undefined w path same_undefined = refl
  Same-diff_value null w path same_null = refl
  Same-diff_value (flag true) w path (same_flag b) = refl
  Same-diff_value (flag false) w path (same_flag b) = refl
  Same-diff_value (text t) w path (same_text s) =
      rw (text_eq_refl t, diff_primitives, strict_equal) refl
  Same-diff_value (arr xs) w path (same_arr {ys = ys} s) = rw ((deep_items_iff xs ys).1 s) refl
  Same-diff_value (obj f) w path (same_obj {g = g} s) =
      for_each_nil (diff_at f g path) (all_keys f g) (λ key. Same-diff_at f g path key (s key))

  Same-diff_at :
      (f g : Fields) (path key : Text)
      → SameOption (get_field key f) (get_field key g)
      → diff_at f g path key ≡ []
  Same-diff_at end g path key s = elim (Option-cases (get_field key g)) [
    | inl missing ↦ rw (missing, diff_at) refl
    | inr (w, found) ↦ absurd (ground (arith, found, same_presence s))
  ]
  Same-diff_at (field k v f) g path key s = elim (Bool-cases (text_eq k key)) [
    | inl e ↦
        let (w, found, t) = SameOption-some s (rw e refl) in
        rw (e, found) (Same-diff_value v w (join_path path key) t)
    | inr e ↦ rw e (Same-diff_at f g path key (rw (e, get_field) at s))
  ]

mutual
  unfolding diff_value diff_arrays diff_primitives missing_or_changed strict_equal get_field

  diff_value-Same : (v w : Value) (path : Text) → diff_value v w path ≡ [] → Same v w
  diff_value-Same undefined undefined path h = same_undefined
  diff_value-Same null null path h = same_null
  diff_value-Same (flag true) (flag true) path h = same_flag true
  diff_value-Same (flag false) (flag false) path h = same_flag false
  diff_value-Same (text s) (text t) path h = elim (Bool-cases (text_eq s t)) [
    | inl e ↦ rw (text_eq→eq s t e) (same_text t)
    | inr e ↦ absurd (ground (arith, e, h))
  ]
  diff_value-Same (arr xs) (arr ys) path h = elim (Bool-cases (deep_items xs ys)) [
    | inl e ↦ same_arr ((deep_items_iff xs ys).0 e)
    | inr e ↦ absurd (ground (arith, e, h))
  ]
  diff_value-Same (obj f) (obj g) path h = same_obj (λ key. SameOption-of_diff f g path key (λ here.
      for_each-contains (diff_at f g path) key (all_keys f g) h
        (contains_key-all_keys key f g ∙ here)))
  diff_value-Same v w path h = absurd (ground arith)

  SameOption-of_diff :
      (f g : Fields) (path key : Text)
      → ((has_field key f || has_field key g) ≡ true → diff_at f g path key ≡ [])
      → SameOption (get_field key f) (get_field key g)
  SameOption-of_diff end g path key h = elim (Option-cases (get_field key g)) [
    | inl missing ↦ rw missing both_none
    | inr (w, found) ↦ absurd (ground (arith, found, h (rw found refl)))
  ]
  SameOption-of_diff (field k v f) g path key h = elim (Bool-cases (text_eq k key)) [
    | inl e ↦ elim (Option-cases (get_field key g)) [
      | inl missing ↦ absurd (ground (arith, e, missing, h (rw e refl)))
      | inr (w, found) ↦
          rw (e, found)
            (both_some
              (diff_value-Same v w (join_path path key) (rw (e, found) at (h (rw e refl)))))
    ]
    | inr e ↦
        rw (e, get_field)
          (SameOption-of_diff f g path key (λ there. rw e at (h (rw (e, get_field) there))))
  ]

nil_iff :
    (ds : List SnapshotDifference) → (elim ds [ [] ↦ true | d ∷ rest ↦ false ] ≡ true) ↔ (ds ≡ [])
nil_iff [] = (λ _. refl, λ _. refl)
nil_iff (d ∷ ds) = (λ h. absurd (ground (arith, h)), λ h. absurd (ground (arith, h)))

-- Two snapshots are reported equal exactly when they are the same: objects have the same keys, in
-- whatever order, and under each key values that are the same; arrays hold such values in the same
-- order. They are reported equal exactly when no difference is listed.
pub diff_schema_snapshots_iff :
    (before after : Value)
    → (((diff_schema_snapshots before after).equal ≡ true) ↔ Same before after)
      × (((diff_schema_snapshots before after).differences ≡ []) ↔ Same before after)
unfolding diff_schema_snapshots
diff_schema_snapshots_iff before after =
    let (from, to) = nil_iff (diff_value before after []) in
    (
      (λ h. diff_value-Same before after [] (from h), λ s. to (Same-diff_value before after [] s)),
      (diff_value-Same before after [], Same-diff_value before after []),
    )
