-- ===== src/Snapshot/Ascending.antt =====
-- Sorted keys: two ascending lists that contain the same keys are one list.
use mathlib.Core.Path.{subst}
use shared_ts_libs.Base.{
  Bool, true, false, ◌≡◌, refl, arith, ◌||◌, List, [], ◌∷◌, Text, text_eq, text_eq→eq, text_eq_refl,
  All, Bool-cases, inl, inr, ap, ◌∙◌, sym,
}
use shared_ts_libs.Snapshot.Keys.{lt_text, insert_key, keys_equal}

lt_irrefl : (s : Text) → lt_text s s ≡ false
unfolding lt_text
lt_irrefl [] = refl
lt_irrefl (c ∷ s) = ground (arith, lt_irrefl s)

lt_trans : (s t u : Text) → lt_text s t ≡ true → lt_text t u ≡ true → lt_text s u ≡ true
unfolding lt_text
lt_trans [] [] u h k = absurd (ground arith)
lt_trans [] (d ∷ t) [] h k = absurd (ground arith)
lt_trans [] (d ∷ t) (e ∷ u) h k = refl
lt_trans (c ∷ s) [] u h k = absurd (ground arith)
lt_trans (c ∷ s) (d ∷ t) [] h k = absurd (ground arith)
lt_trans (c ∷ s) (d ∷ t) (e ∷ u) h k = ground (arith, lt_trans s t u)

lt_total : (s t : Text) → text_eq s t ≡ false → lt_text s t ≡ false → lt_text t s ≡ true
unfolding lt_text
lt_total [] [] h k = absurd (ground arith)
lt_total [] (d ∷ t) h k = absurd (ground arith)
lt_total (c ∷ s) [] h k = refl
lt_total (c ∷ s) (d ∷ t) h k = ground (arith, lt_total s t)

-- keys.includes(key)
abbrev pub contains_key : Text → List Text → Bool
contains_key k [] = false
contains_key k (j ∷ js) = text_eq j k || contains_key k js

abbrev Above : Text → List Text → Type 0
Above k js = All (λ j. lt_text k j ≡ true) js

abbrev pub IsAscending : List Text → Type 0
IsAscending [] = Unit
IsAscending (k ∷ ks) = Above k ks × IsAscending ks

Above-trans : (j k : Text) (ks : List Text) → lt_text j k ≡ true → Above k ks → Above j ks
Above-trans j k [] h a = tt
Above-trans j k (x ∷ ks) h a = (lt_trans j k x h a.0, Above-trans j k ks h a.1)

Above-absent : (k : Text) (ks : List Text) → Above k ks → contains_key k ks ≡ false
Above-absent k [] a = refl
Above-absent k (j ∷ ks) a = elim (Bool-cases (text_eq j k)) [
  | inl same ↦ absurd (ground (arith, text_eq→eq j k same, lt_irrefl k, a.0))
  | inr other ↦ rw other (Above-absent k ks a.1)
]

Above-insert :
    (j k : Text) (ks : List Text) → lt_text j k ≡ true → Above j ks → Above j (insert_key k ks)
unfolding insert_key
Above-insert j k [] h a = (h, tt)
Above-insert j k (x ∷ xs) h a = elim (Bool-cases (text_eq k x)) [
  | inl same ↦ rw (same, insert_key) a
  | inr other ↦ elim (Bool-cases (lt_text k x)) [
    | inl below ↦ rw (other, below, insert_key) (h, a)
    | inr above ↦ rw (other, above, insert_key) (a.0, Above-insert j k xs h a.1)
  ]
]

pub insert_key-IsAscending :
    (k : Text) (ks : List Text) → IsAscending ks → IsAscending (insert_key k ks)
unfolding insert_key
insert_key-IsAscending k [] a = (tt, tt)
insert_key-IsAscending k (x ∷ xs) a = elim (Bool-cases (text_eq k x)) [
  | inl same ↦ rw (same, insert_key) a
  | inr other ↦ elim (Bool-cases (lt_text k x)) [
    | inl below ↦ rw (other, below, insert_key) ((below, Above-trans k x xs below a.0), a)
    | inr above ↦
        rw (other, above, insert_key)
          (Above-insert x k xs (lt_total k x other above) a.0, insert_key-IsAscending k xs a.1)
  ]
]

pub contains_key-insert_key :
    (k j : Text) (ks : List Text)
    → contains_key k (insert_key j ks) ≡ (text_eq j k || contains_key k ks)
unfolding insert_key
contains_key-insert_key k j [] = refl
contains_key-insert_key k j (x ∷ xs) = elim (Bool-cases (text_eq j x)) [
  | inl same ↦ rw (same, insert_key) (rw (text_eq→eq j x same) (ground arith))
  | inr other ↦ elim (Bool-cases (lt_text j x)) [
    | inl below ↦ rw (other, below, insert_key) refl
    | inr above ↦ rw (other, above, insert_key) (ground (arith, contains_key-insert_key k j xs))
  ]
]

module _ (x : Text) (xs ys : List Text) where
  -- The same head can be left out of two lists that contain the same keys.
  tails_contain :
      Above x xs
      → Above x ys
      → ((k : Text) → contains_key k (x ∷ xs) ≡ contains_key k (x ∷ ys))
      → (k : Text) → contains_key k xs ≡ contains_key k ys
  tails_contain a b same k = elim (Bool-cases (text_eq x k)) [
    | inl e ↦
        let here = text_eq→eq x k e in rw (← here) (Above-absent x xs a ∙ sym (Above-absent x ys b))
    | inr e ↦ (rw e at (same k))
  ]

  -- A head that is below the other list's head is not in that list.
  lower_head :
      (y : Text)
      → lt_text x y ≡ true
      → Above y ys
      → ¬ ((k : Text) → contains_key k (x ∷ xs) ≡ contains_key k (y ∷ ys))
  lower_head y below b same =
      ground
        (arith, same x, text_eq_refl x, Above-absent x (y ∷ ys) (below, Above-trans x y ys below b))

pub ascending_unique :
    (xs ys : List Text)
    → IsAscending xs
    → IsAscending ys
    → ((k : Text) → contains_key k xs ≡ contains_key k ys)
    → xs ≡ ys
ascending_unique [] [] a b same = refl
ascending_unique [] (y ∷ ys) a b same = absurd (ground (arith, same y, text_eq_refl y))
ascending_unique (x ∷ xs) [] a b same = absurd (ground (arith, same x, text_eq_refl x))
ascending_unique (x ∷ xs) (y ∷ ys) a b same = elim (Bool-cases (text_eq x y)) [
  | inl e ↦
      let here = text_eq→eq x y e in
      ap (λ l. x ∷ l)
        (ascending_unique xs ys a.1 b.1 (
          tails_contain x xs ys a.0 (subst (λ z. Above z ys) (sym here) b.0)
            (λ k. same k ∙ ap (λ z. contains_key k (z ∷ ys)) (sym here))))
      ∙ ap (λ z. z ∷ ys) here
  | inr other ↦ elim (Bool-cases (lt_text x y)) [
    | inl below ↦ absurd (lower_head x xs ys y below b.0 same)
    | inr above ↦ absurd (lower_head y ys xs x (lt_total x y other above) a.0 (λ k. sym (same k)))
  ]
]

pub keys_equal→eq : (js ks : List Text) → keys_equal js ks ≡ true → js ≡ ks
unfolding keys_equal
keys_equal→eq [] [] h = refl
keys_equal→eq [] (k ∷ ks) h = absurd (ground arith)
keys_equal→eq (j ∷ js) [] h = absurd (ground arith)
keys_equal→eq (j ∷ js) (k ∷ ks) h = ground (arith, text_eq→eq j k, keys_equal→eq js ks)

pub keys_equal_refl : (ks : List Text) → keys_equal ks ks ≡ true
unfolding keys_equal
keys_equal_refl [] = refl
keys_equal_refl (k ∷ ks) = ground (arith, text_eq_refl k, keys_equal_refl ks)
