-- ===== src/Snapshot/Deep.antt =====
-- `deepEqual` decides whether two values are the same.
use shared_ts_libs.Base.{
  ◌↔◌, Bool, true, false, ◌≡◌, refl, arith, List, [], ◌∷◌, Text, text_eq, text_eq→eq, text_eq_refl,
  every, ◌∙◌, sym, ap, Bool-cases, inl, inr, Option-cases,
}
use shared_ts_libs.Snapshot.Keys.{
  Value, undefined, null, flag, text, arr, obj, Items, nil, cons, Fields, end, field, get_field,
  sorted_keys, strict_equal,
}
use shared_ts_libs.Snapshot.Ascending.{contains_key, keys_equal→eq, keys_equal_refl}
use shared_ts_libs.Snapshot.Diff.{deep_equal, deep_items, deep_at}
use shared_ts_libs.Snapshot.Same.{
  Same, same_undefined, same_null, same_flag, same_text, same_arr, same_obj, SameItems, both_nil,
  both_cons, SameOption, both_none, both_some, has_field, SameOption-some, same_keys,
  contains_key-sorted_keys,
}

module _ (p : Text → Bool) where
  every-true : (ks : List Text) → ((k : Text) → p k ≡ true) → every p ks ≡ true
  every-true [] h = refl
  every-true (k ∷ ks) h = rw (h k) (every-true ks h)

  every-contains :
      (key : Text) (ks : List Text) → every p ks ≡ true → contains_key key ks ≡ true → p key ≡ true
  every-contains key [] h c = absurd (ground arith)
  every-contains key (k ∷ ks) h c = elim (Bool-cases (text_eq k key)) [
    | inl e ↦ ground (arith, ap p (text_eq→eq k key e), h)
    | inr e ↦ every-contains key ks (ground (arith, h)) (rw e at c)
  ]

mutual
  unfolding deep_equal strict_equal get_field

  Same-deep_equal : (v w : Value) → Same v w → deep_equal v w ≡ true
  Same-deep_equal undefined w same_undefined = refl
  Same-deep_equal null w same_null = refl
  Same-deep_equal (flag true) w (same_flag b) = refl
  Same-deep_equal (flag false) w (same_flag b) = refl
  Same-deep_equal (text t) w (same_text s) = text_eq_refl t
  Same-deep_equal (arr xs) w (same_arr {ys = ys} s) = Same-deep_items xs ys s
  Same-deep_equal (obj f) w (same_obj {g = g} s) =
      rw (same_keys f g s, keys_equal_refl (sorted_keys g))
        (every-true (deep_at f g) (sorted_keys g) (λ key. Same-deep_at f g key (s key)))

  Same-deep_items : (xs ys : Items) → SameItems xs ys → deep_items xs ys ≡ true
  Same-deep_items nil ys both_nil = refl
  Same-deep_items (cons x xs) w (both_cons {y = y} {ys = ys} s t) =
      rw (Same-deep_equal x y s) (Same-deep_items xs ys t)

  Same-deep_at :
      (f g : Fields) (key : Text)
      → SameOption (get_field key f) (get_field key g)
      → deep_at f g key ≡ true
  Same-deep_at end g key s = refl
  Same-deep_at (field k v f) g key s = elim (Bool-cases (text_eq k key)) [
    | inl e ↦
        let (w, found, t) = SameOption-some s (rw e refl) in rw (e, found) (Same-deep_equal v w t)
    | inr e ↦ rw e (Same-deep_at f g key (rw (e, get_field) at s))
  ]

-- A key that both objects have, or neither, with values that are the same where both have it.
SameOption-of :
    (f g : Fields) (key : Text)
    → has_field key f ≡ has_field key g
    → (has_field key f ≡ true → SameOption (get_field key f) (get_field key g))
    → SameOption (get_field key f) (get_field key g)
SameOption-of f g key e h = elim (Option-cases (get_field key f)) [
  | inl missing ↦ elim (Option-cases (get_field key g)) [
    | inl missing' ↦ rw (missing, missing') both_none
    | inr (w, found) ↦ absurd (ground (arith, missing, found, e))
  ]
  | inr (v, found) ↦ h (rw found refl)
]

mutual
  unfolding deep_equal strict_equal get_field

  deep_equal-Same : (v w : Value) → deep_equal v w ≡ true → Same v w
  deep_equal-Same undefined undefined h = same_undefined
  deep_equal-Same null null h = same_null
  deep_equal-Same (flag true) (flag true) h = same_flag true
  deep_equal-Same (flag false) (flag false) h = same_flag false
  deep_equal-Same (text s) (text t) h = rw (text_eq→eq s t h) (same_text t)
  deep_equal-Same (arr xs) (arr ys) h = same_arr (deep_items-Same xs ys h)
  deep_equal-Same (obj f) (obj g) h =
      let keys = keys_equal→eq (sorted_keys f) (sorted_keys g) (ground (arith, h)) in
      same_obj (λ key.
        let there =
          sym (contains_key-sorted_keys key f)
          ∙ ap (contains_key key) keys
          ∙ contains_key-sorted_keys key g in
        SameOption-of f g key there (λ mine. deep_at-Same f g key mine (sym there ∙ mine) (
          every-contains (deep_at f g) key (sorted_keys f) (ground (arith, h))
            (contains_key-sorted_keys key f ∙ mine))))
  deep_equal-Same v w h = absurd (ground arith)

  deep_items-Same : (xs ys : Items) → deep_items xs ys ≡ true → SameItems xs ys
  deep_items-Same nil nil h = both_nil
  deep_items-Same nil (cons y ys) h = absurd (ground arith)
  deep_items-Same (cons x xs) nil h = absurd (ground arith)
  deep_items-Same (cons x xs) (cons y ys) h =
      both_cons (deep_equal-Same x y (ground (arith, h)))
        (deep_items-Same xs ys (ground (arith, h)))

  deep_at-Same :
      (f g : Fields) (key : Text)
      → has_field key f ≡ true
      → has_field key g ≡ true
      → deep_at f g key ≡ true
      → SameOption (get_field key f) (get_field key g)
  deep_at-Same end g key a b h = absurd (ground arith)
  deep_at-Same (field k v f) g key a b h = elim (Option-cases (get_field key g)) [
    | inl missing ↦ absurd (ground (arith, missing, b))
    | inr (w, found) ↦ elim (Bool-cases (text_eq k key)) [
      | inl e ↦ rw (e, found) (both_some (deep_equal-Same v w (rw (e, found) at h)))
      | inr e ↦ rw (e, get_field) (deep_at-Same f g key (rw (e, get_field) at a) b (rw e at h))
    ]
  ]

-- `deepEqual` holds of two values exactly when they are the same: objects with the same keys, in
-- whatever order, and the same values under them; arrays of the same values in the same order.
pub deep_equal_iff : (v w : Value) → (deep_equal v w ≡ true) ↔ Same v w
deep_equal_iff v w = (deep_equal-Same v w, Same-deep_equal v w)

pub deep_items_iff : (xs ys : Items) → (deep_items xs ys ≡ true) ↔ SameItems xs ys
deep_items_iff xs ys = (deep_items-Same xs ys, Same-deep_items xs ys)
