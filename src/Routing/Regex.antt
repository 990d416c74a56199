-- ===== src/Routing/Regex.antt =====
-- The patterns of the runtime that the naming rules are written in, and when a text fits one.
use mathlib.Core.Path.{subst}
use shared_ts_libs.Base.{
  ◌↔◌, ℕ, Bool, true, false, ◌≡◌, refl, arith, ◌&&◌, ◌||◌, [], ◌∷◌, ◌++◌, Text, if◌then◌else◌,
  Bool-cases, inl, inr, ◌⊎◌, ap, ◌∙◌, sym,
}

pub data Regex : Type 0 where
  never : Regex
  empty : Regex
  one : (ℕ → Bool) → Regex
  seq : Regex → Regex → Regex
  alt : Regex → Regex → Regex
  star : Regex → Regex

-- When a pattern that is anchored at both ends fits a text.
pub data Matches : Regex → Text → Type 0 where
  fits_empty : Matches empty []
  fits_one : {p : ℕ → Bool} {c : ℕ} → p c ≡ true → Matches (one p) (c ∷ [])
  fits_seq :
      {r r' : Regex} {s t u : Text} → Matches r s → Matches r' t → u ≡ s ++ t → Matches (seq r r') u
  fits_left : {r r' : Regex} {t : Text} → Matches r t → Matches (alt r r') t
  fits_right : {r r' : Regex} {t : Text} → Matches r' t → Matches (alt r r') t
  fits_none : {r : Regex} → Matches (star r) []
  fits_more :
      {r : Regex} {s t u : Text}
      → Matches r s
      → Matches (star r) t
      → u ≡ s ++ t
      → Matches (star r) u

unfoldable pub nullable : Regex → Bool
nullable never = false
nullable empty = true
nullable (one p) = false
nullable (seq r r') = nullable r && nullable r'
nullable (alt r r') = nullable r || nullable r'
nullable (star r) = true

-- What is left of a pattern after a code unit.
unfoldable pub derive : Regex → ℕ → Regex
unfolding nullable
derive never c = never
derive empty c = never
derive (one p) c = if p c then empty else never
derive (seq r r') c =
    let rest = seq (derive r c) r' in if nullable r then alt rest (derive r' c) else rest
derive (alt r r') c = alt (derive r c) (derive r' c)
derive (star r) c = seq (derive r c) (star r)

-- `/^...$/.test(text)`
unfoldable pub test : Regex → Text → Bool
unfolding nullable derive
test r [] = nullable r
test r (c ∷ t) = test (derive r c) t

nullable-Matches : (r : Regex) → nullable r ≡ true → Matches r []
unfolding nullable
nullable-Matches never h = absurd (ground arith)
nullable-Matches empty h = fits_empty
nullable-Matches (one p) h = absurd (ground arith)
nullable-Matches (seq r r') h =
    fits_seq (nullable-Matches r (ground (arith, h))) (nullable-Matches r' (ground (arith, h))) refl
nullable-Matches (alt r r') h = elim (Bool-cases (nullable r)) [
  | inl e ↦ fits_left (nullable-Matches r e)
  | inr e ↦ fits_right (nullable-Matches r' (rw e at h))
]
nullable-Matches (star r) h = fits_none

never-text : {t : Text} → ¬ Matches never t
never-text m = elim m [ ]

pub empty-text : {t : Text} → Matches empty t → t ≡ []
empty-text fits_empty = refl

pub one-text : {p : ℕ → Bool} {t : Text} → Matches (one p) t → (c : ℕ) × (t ≡ c ∷ []) × (p c ≡ true)
one-text (fits_one {c = c} h) = (c, refl, h)

pub seq-text :
    {r r' : Regex} {u : Text}
    → Matches (seq r r') u
    → (s : Text) × (t : Text) × Matches r s × Matches r' t × (u ≡ s ++ t)
seq-text (fits_seq {s = s} {t = t} m m' e) = (s, t, m, m', e)

pub alt-text : {r r' : Regex} {t : Text} → Matches (alt r r') t → Matches r t ⊎ Matches r' t
alt-text (fits_left m) = inl m
alt-text (fits_right m) = inr m

both_nil : (s t : Text) → s ++ t ≡ [] → (s ≡ []) × (t ≡ [])
both_nil [] t h = (refl, h)
both_nil (c ∷ s) t h = absurd (ground arith)

Matches-nullable : {r : Regex} {t : Text} → Matches r t → t ≡ [] → nullable r ≡ true
unfolding nullable
Matches-nullable fits_empty e = refl
Matches-nullable (fits_one h) e = absurd (ground arith)
Matches-nullable (fits_seq {s = s} {t = t} m m' u) e =
    let (a, b) = both_nil s t (sym u ∙ e) in rw (Matches-nullable m a, Matches-nullable m' b) refl
Matches-nullable (fits_left m) e = rw (Matches-nullable m e) refl
Matches-nullable (fits_right {r = r} {r' = r'} m) e = rw (Matches-nullable m e) (ground arith)
Matches-nullable fits_none e = refl
Matches-nullable (fits_more m m' u) e = refl

-- Where a part of the text begins: at its first code unit, or after an empty part.
head_of :
    (s t rest : Text) (c : ℕ)
    → c ∷ rest ≡ s ++ t
    → ((s ≡ []) × (t ≡ c ∷ rest)) ⊎ ((s' : Text) × (s ≡ c ∷ s') × (rest ≡ s' ++ t))
head_of [] t rest c e = inl (refl, sym e)
head_of (d ∷ s) t rest c e = inr (s, ground (arith, e), ground (arith, e))

-- The first part of a repetition that is not empty.
star_head :
    {r : Regex} {u rest : Text} {c : ℕ}
    → Matches (star r) u
    → u ≡ c ∷ rest
    → (s : Text) × (t : Text) × Matches r (c ∷ s) × Matches (star r) t × (rest ≡ s ++ t)
star_head fits_none e = absurd (ground arith)
star_head {r} {rest = rest} {c = c} (fits_more {s = s} {t = t} m m' u) e =
    let again = λ (w : t ≡ c ∷ rest). star_head m' w in
    elim (head_of s t rest c (sym e ∙ u)) [
      | inl (a, b) ↦ again b
      | inr (s', a, b) ↦ (s', t, subst (λ x. Matches r x) a m, m', b)
    ]

derive_seq :
    (r r' : Regex) (c : ℕ) (t : Text)
    → ((s : Text) → Matches (derive r c) s → Matches r (c ∷ s))
    → Matches (seq (derive r c) r') t
    → Matches (seq r r') (c ∷ t)
derive_seq r r' c t ih m =
    let (s, t', a, b, e) = seq-text m in fits_seq (ih s a) b (ap (λ x. c ∷ x) e)

derive-Matches : (r : Regex) (c : ℕ) (t : Text) → Matches (derive r c) t → Matches r (c ∷ t)
unfolding derive
derive-Matches never c t m = elim m [ ]
derive-Matches empty c t m = elim m [ ]
derive-Matches (one p) c t m = elim (Bool-cases (p c)) [
  | inl h ↦ rw (empty-text (subst (λ b. Matches (if b then empty else never) t) h m)) (fits_one h)
  | inr h ↦ absurd (never-text (subst (λ b. Matches (if b then empty else never) t) h m))
]
derive-Matches (seq r r') c t m =
    let ih = λ (s : Text). derive-Matches r c s in
    elim (Bool-cases (nullable r)) [
      | inl h ↦ elim (alt-text (rw (h, derive) at m)) [
        | inl a ↦ derive_seq r r' c t ih a
        | inr b ↦ fits_seq (nullable-Matches r h) (derive-Matches r' c t b) refl
      ]
      | inr h ↦ derive_seq r r' c t ih (rw (h, derive) at m)
    ]
derive-Matches (alt r r') c t m = elim (alt-text m) [
  | inl a ↦ fits_left (derive-Matches r c t a)
  | inr b ↦ fits_right (derive-Matches r' c t b)
]
derive-Matches (star r) c t m =
    let (s, t', a, b, e) = seq-text m in fits_more (derive-Matches r c s a) b (ap (λ x. c ∷ x) e)

one_head :
    {p : ℕ → Bool} {u t : Text} {c : ℕ} → Matches (one p) u → u ≡ c ∷ t → (p c ≡ true) × (t ≡ [])
one_head {p} {c = c} (fits_one {c = d} h) e =
    let same : d ≡ c = ground (arith, e) in (subst (λ x. p x ≡ true) same h, ground (arith, e))

-- A sequence goes on in its first part, or in its second one after an empty first part.
seq_derived :
    (r r' : Regex) (c : ℕ) (t : Text)
    → (Matches (seq (derive r c) r') t) ⊎ ((nullable r ≡ true) × Matches (derive r' c) t)
    → Matches (derive (seq r r') c) t
unfolding derive
seq_derived r r' c t (inl m) = elim (Bool-cases (nullable r)) [
  | inl h ↦ rw (h, derive) (fits_left m)
  | inr h ↦ rw (h, derive) m
]
seq_derived r r' c t (inr (h, m)) = rw (h, derive) (fits_right m)

Matches-derive : (r : Regex) (c : ℕ) (t : Text) → Matches r (c ∷ t) → Matches (derive r c) t
unfolding derive
Matches-derive never c t m = elim m [ ]
Matches-derive empty c t m = absurd (ground (arith, empty-text m))
Matches-derive (one p) c t m = let (h, e) = one_head m refl in rw (h, e) fits_empty
Matches-derive (seq r r') c t m =
    let (s, t', a, b, e) = seq-text m in
    let first = λ (s' : Text). Matches-derive r c s' in
    let second = Matches-derive r' c t in
    seq_derived r r' c t (elim (head_of s t' t c e) [
      | inl (x, y) ↦ inr (Matches-nullable a x, second (subst (λ z. Matches r' z) y b))
      | inr (s', x, y) ↦ inl (fits_seq (first s' (subst (λ z. Matches r z) x a)) b y)
    ])
Matches-derive (alt r r') c t m = elim (alt-text m) [
  | inl a ↦ fits_left (Matches-derive r c t a)
  | inr b ↦ fits_right (Matches-derive r' c t b)
]
Matches-derive (star r) c t m =
    let (s, t', a, b, e) = star_head m refl in fits_seq (Matches-derive r c s a) b e

test-Matches : (r : Regex) (t : Text) → test r t ≡ true → Matches r t
unfolding test
test-Matches r [] h = nullable-Matches r h
test-Matches r (c ∷ t) h = derive-Matches r c t (test-Matches (derive r c) t h)

Matches-test : (r : Regex) (t : Text) → Matches r t → test r t ≡ true
unfolding test
Matches-test r [] m = Matches-nullable m refl
Matches-test r (c ∷ t) m = Matches-test (derive r c) t (Matches-derive r c t m)

-- The test of a pattern holds of a text exactly when the pattern fits the text.
pub test_iff : (r : Regex) (t : Text) → (test r t ≡ true) ↔ Matches r t
test_iff r t = (test-Matches r t, Matches-test r t)
