-- ===== src/Snapshot/Same.antt =====
-- When two values of snapshots are the same: objects whatever the order of their keys, arrays in their
-- order. Two objects have the same keys exactly when their sorted keys are one list.
use mathlib.Core.Path.{subst}
use mathlib.Core.Option.{some_inj}
use shared_ts_libs.Base.{
  Bool, true, false, ◌≡◌, refl, arith, ◌||◌, List, [], Option, none, some, Text, text_eq, ◌∙◌, sym,
  ap, Bool-cases, inl, inr,
}
use shared_ts_libs.Snapshot.Keys.{
  Value, undefined, null, flag, text, arr, obj, Items, nil, cons, Fields, end, field, get_field,
  add_keys, sorted_keys, all_keys,
}
use shared_ts_libs.Snapshot.Ascending.{
  contains_key, IsAscending, insert_key-IsAscending, contains_key-insert_key, ascending_unique,
}

mutual
  pub data Same : Value → Value → Type 0 where
    same_undefined : Same undefined undefined
    same_null : Same null null
    same_flag : (b : Bool) → Same (flag b) (flag b)
    same_text : (t : Text) → Same (text t) (text t)
    same_arr : {xs ys : Items} → SameItems xs ys → Same (arr xs) (arr ys)
    same_obj :
        {f g : Fields}
        → ((key : Text) → SameOption (get_field key f) (get_field key g))
        → Same (obj f) (obj g)

  pub data SameItems : Items → Items → Type 0 where
    both_nil : SameItems nil nil
    both_cons :
        {x y : Value} {xs ys : Items}
        → Same x y
        → SameItems xs ys
        → SameItems (cons x xs) (cons y ys)

  pub data SameOption : Option Value → Option Value → Type 0 where
    both_none : SameOption none none
    both_some : {v w : Value} → Same v w → SameOption (some v) (some w)

abbrev pub is_present : Option Value → Bool
is_present o = elim o [ none ↦ false | some v ↦ true ]

-- value.hasOwn(key)
abbrev pub has_field : Text → Fields → Bool
has_field key f = is_present (get_field key f)

pub same_presence : {o p : Option Value} → SameOption o p → is_present o ≡ is_present p
same_presence both_none = refl
same_presence (both_some s) = refl

-- A value stands beside one that is the same.
pub SameOption-some :
    {o p : Option Value} {v : Value}
    → SameOption o p
    → o ≡ some v
    → (w : Value) × (p ≡ some w) × Same v w
SameOption-some both_none e = absurd (ground arith)
SameOption-some {v = v} (both_some {w = w} s) e = (w, refl, subst (λ x. Same x w) (some_inj.0 e) s)

pub add_keys-IsAscending :
    (f : Fields) (ks : List Text) → IsAscending ks → IsAscending (add_keys f ks)
unfolding add_keys
add_keys-IsAscending end ks a = a
add_keys-IsAscending (field k v f) ks a =
    insert_key-IsAscending k (add_keys f ks) (add_keys-IsAscending f ks a)

pub contains_key-add_keys :
    (key : Text) (f : Fields) (ks : List Text)
    → contains_key key (add_keys f ks) ≡ (has_field key f || contains_key key ks)
unfolding add_keys get_field
contains_key-add_keys key end ks = refl
contains_key-add_keys key (field k v f) ks =
    contains_key-insert_key key k (add_keys f ks) ∙ elim (Bool-cases (text_eq k key)) [
      | inl e ↦ rw (e, get_field) refl
      | inr e ↦ rw (e, get_field) (contains_key-add_keys key f ks)
    ]

pub has_field-same :
    (f g : Fields)
    → ((key : Text) → has_field key f ≡ has_field key g)
    → sorted_keys f ≡ sorted_keys g
unfolding sorted_keys
has_field-same f g h =
    ascending_unique (add_keys f []) (add_keys g []) (add_keys-IsAscending f [] tt)
      (add_keys-IsAscending g [] tt)
      (λ key.
        contains_key-add_keys key f []
        ∙ ap (λ b. b || false) (h key)
        ∙ sym (contains_key-add_keys key g []))

pub same_keys :
    (f g : Fields)
    → ((key : Text) → SameOption (get_field key f) (get_field key g))
    → sorted_keys f ≡ sorted_keys g
same_keys f g same = has_field-same f g (λ key. same_presence (same key))

pub contains_key-sorted_keys :
    (key : Text) (f : Fields) → contains_key key (sorted_keys f) ≡ has_field key f
unfolding sorted_keys
contains_key-sorted_keys key f = contains_key-add_keys key f [] ∙ ground arith

pub contains_key-all_keys :
    (key : Text) (f g : Fields)
    → contains_key key (all_keys f g) ≡ (has_field key f || has_field key g)
unfolding all_keys
contains_key-all_keys key f g =
    contains_key-add_keys key f (add_keys g [])
    ∙ ap (λ b. has_field key f || b) (contains_key-add_keys key g [] ∙ ground arith)
