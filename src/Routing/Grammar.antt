-- ===== src/Routing/Grammar.antt =====
-- What the patterns of names stand for: words of lower-case letters and how they are joined.
use shared_ts_libs.Base.{
  ◌↔◌, ℕ, suc, Bool, true, ◌≡◌, refl, [], ◌∷◌, ◌++◌, Text, All, append-nil, ap, ◌∙◌, sym, inl, inr,
  ==_iff,
}
use mathlib.Core.Path.{subst}
use shared_ts_libs.Routing.Regex.{
  Regex, one, seq, star, test, Matches, fits_empty, fits_one, fits_seq, fits_left, fits_right,
  fits_none, fits_more, one-text, seq-text, alt-text, empty-text, test_iff,
}
use shared_ts_libs.Routing.Names.{
  is_separator, is_lower, char, plus, optional, words_regex, topic_name_regex, queue_name_regex,
}

-- Lower-case letters, one at least.
pub record IsWord (t : Text) : Type 0 where
  pub head : ℕ
  pub rest : Text
  pub parts : t ≡ head ∷ rest
  pub lower : All (λ c. is_lower c ≡ true) (head ∷ rest)

-- Texts of a kind, one at least, with a code unit between them.
pub data Joined (between : ℕ) (P : Text → Type 0) : Text → Type 0 where
  single : {t : Text} → P t → Joined between P t
  joined : {s t u : Text} → P s → Joined between P t → u ≡ s ++ between ∷ t → Joined between P u

-- Words with underscores between them.
abbrev pub IsWords : Text → Type 0
IsWords = Joined 95 IsWord

-- At most so many groups of words, one at least, with hyphens between them.
pub data IsGroups : ℕ → Text → Type 0 where
  last_group : {n : ℕ} {t : Text} → IsWords t → IsGroups (suc n) t
  next_group :
      {n : ℕ} {s t u : Text} → IsWords s → IsGroups n t → u ≡ s ++ 45 ∷ t → IsGroups (suc n) u

char-text : {c : ℕ} {t : Text} → Matches (char c) t → t ≡ c ∷ []
char-text {c} m = let (d, e, h) = one-text m in e ∙ ap (λ x. x ∷ []) ((==_iff d c).0 h)

fits_char : (c : ℕ) → Matches (char c) (c ∷ [])
fits_char c = fits_one ((==_iff c c).1 refl)

module _ (p : ℕ → Bool) where
  star-All : {t : Text} → Matches (star (one p)) t → All (λ c. p c ≡ true) t
  star-All fits_none = tt
  star-All (fits_more {t = t} m m' e) =
      let (c, single_unit, h) = one-text m in
      subst (λ x. All (λ c. p c ≡ true) x) (sym (e ∙ ap (λ s. s ++ t) single_unit)) (h, star-All m')

  All-star : (t : Text) → All (λ c. p c ≡ true) t → Matches (star (one p)) t
  All-star [] a = fits_none
  All-star (c ∷ t) a = fits_more (fits_one a.0) (All-star t a.1) refl

plus-IsWord : (t : Text) → Matches (plus (one is_lower)) t ↔ IsWord t
plus-IsWord t = (
  λ m.
      let (x, y, a, b, e) = seq-text m in
      let (c, head, h) = one-text a in
      record {
        head = c;
        rest = y;
        parts = e ∙ ap (λ s. s ++ y) head;
        lower = (h, star-All is_lower b);
      },
  λ w. fits_seq (fits_one w.lower.0) (All-star is_lower w.rest w.lower.1) w.parts,
)

module _ (between : ℕ) (r : Regex) (P : Text → Type 0) (part : (t : Text) → Matches r t ↔ P t) where
  star-Joined :
      {t : Text}
      → Matches (star (seq (char between) r)) t
      → (s u : Text) → P s
      → u ≡ s ++ t
      → Joined between P u
  star-Joined fits_none s u p e = subst (Joined between P) (sym (e ∙ append-nil s)) (single p)
  star-Joined (fits_more {t = t} m m' split) s u p e =
      let (x, y, a, b, inner) = seq-text m in
      joined p (star-Joined m' y (y ++ t) ((part y).0 b) refl)
        (e ∙ ap (λ z. s ++ z) (split ∙ ap (λ z. z ++ t) (inner ∙ ap (λ z. z ++ y) (char-text a))))

  Joined-Matches : {u : Text} → Joined between P u → Matches (seq r (star (seq (char between) r))) u
  Joined-Matches (single {t = t} p) = fits_seq ((part t).1 p) fits_none (sym (append-nil t))
  Joined-Matches (joined {s = s} p j e) =
      let (y, z, a, b, split) = seq-text (Joined-Matches j) in
      fits_seq ((part s).1 p) (fits_more (fits_seq (fits_char between) a refl) b refl)
        (e ∙ ap (λ t. s ++ between ∷ t) split)

  Joined_iff : (t : Text) → Matches (seq r (star (seq (char between) r))) t ↔ Joined between P t
  Joined_iff t = (
    λ m. let (x, y, a, b, e) = seq-text m in star-Joined b x t ((part x).0 a) e,
    λ j. Joined-Matches j,
  )

words_regex-IsWords : (t : Text) → Matches words_regex t ↔ IsWords t
words_regex-IsWords = Joined_iff 95 (plus (one is_lower)) IsWord plus-IsWord

-- A separator, and then a text of the kind.
pub record IsSuffix (P : Text → Type 0) (t : Text) : Type 0 where
  pub separator : ℕ
  pub rest : Text
  pub parts : t ≡ separator ∷ rest
  pub separates : is_separator separator ≡ true
  pub fits : P rest

suffix_iff :
    (r : Regex) (P : Text → Type 0)
    → ((t : Text) → Matches r t ↔ P t)
    → (t : Text) → Matches (seq (one is_separator) r) t ↔ IsSuffix P t
suffix_iff r P part t = (
  λ m.
      let (x, y, a, b, e) = seq-text m in
      let (c, head, h) = one-text a in
      record {
        separator = c;
        rest = y;
        parts = e ∙ ap (λ s. s ++ y) head;
        separates = h;
        fits = (part y).0 b;
      },
  λ w. fits_seq (fits_one w.separates) ((part w.rest).1 w.fits) w.parts,
)

IsGroups-Matches :
    {n : ℕ} {r : Regex} {t : Text}
    → ((s : Text) → Matches r s ↔ IsGroups n s)
    → IsGroups (suc n) t
    → Matches (seq words_regex (optional (seq (char 45) r))) t
IsGroups-Matches part (last_group {t = t} w) =
    fits_seq ((words_regex-IsWords t).1 w) (fits_right fits_empty) (sym (append-nil t))
IsGroups-Matches part (next_group {s = s} {t = t} w g e) =
    fits_seq ((words_regex-IsWords s).1 w) (fits_left (fits_seq (fits_char 45) ((part t).1 g) refl))
      e

Matches-IsGroups :
    {n : ℕ} {r : Regex} {t : Text}
    → ((s : Text) → Matches r s ↔ IsGroups n s)
    → Matches (seq words_regex (optional (seq (char 45) r))) t
    → IsGroups (suc n) t
Matches-IsGroups {n} part m =
    let (x, y, a, b, e) = seq-text m in
    elim (alt-text b) [
      | inl more ↦
          let (z, w, hyphen, g, i) = seq-text more in
          next_group ((words_regex-IsWords x).0 a) ((part w).0 g)
            (e ∙ ap (λ q. x ++ q) (i ∙ ap (λ q. q ++ w) (char-text hyphen)))
      | inr over ↦
          subst (λ q. IsGroups (suc n) q)
            (sym (e ∙ ap (λ q. x ++ q) (empty-text over) ∙ append-nil x))
            (last_group ((words_regex-IsWords x).0 a))
    ]

not-IsGroups : {t : Text} → ¬ IsGroups 0 t
not-IsGroups g = elim g [ ]

IsGroups-IsWords : {t : Text} → IsGroups 1 t → IsWords t
IsGroups-IsWords (last_group w) = w
IsGroups-IsWords (next_group w g e) = absurd (not-IsGroups g)

one_group_iff : (t : Text) → Matches words_regex t ↔ IsGroups 1 t
one_group_iff t = (
  λ m. last_group ((words_regex-IsWords t).0 m),
  λ g. (words_regex-IsWords t).1 (IsGroups-IsWords g),
)

-- A group of words, and what may follow it after a hyphen.
hyphenated_iff :
    (n : ℕ) (r : Regex)
    → ((t : Text) → Matches r t ↔ IsGroups n t)
    → (t : Text) → Matches (seq words_regex (optional (seq (char 45) r))) t ↔ IsGroups (suc n) t
hyphenated_iff n r part t = (λ m. Matches-IsGroups part m, λ g. IsGroups-Matches part g)

-- After the project, a topic's name has a hyphen or an underscore and words with underscores between them.
pub topic_name_regex_iff : (t : Text) → (test topic_name_regex t ≡ true) ↔ IsSuffix IsWords t
unfolding topic_name_regex
topic_name_regex_iff t =
    let (from, to) = test_iff topic_name_regex t in
    let (read, write) = suffix_iff words_regex IsWords words_regex-IsWords t in
    (λ h. read (from h), λ w. to (write w))

-- After the project, a queue's name has a hyphen or an underscore and at most three groups of such
-- words, with hyphens between them.
pub queue_name_regex_iff : (t : Text) → (test queue_name_regex t ≡ true) ↔ IsSuffix (IsGroups 3) t
unfolding queue_name_regex
queue_name_regex_iff t =
    let two = hyphenated_iff 1 words_regex one_group_iff in
    let three = hyphenated_iff 2 _ two in
    let (from, to) = test_iff queue_name_regex t in
    let (read, write) = suffix_iff _ (IsGroups 3) three t in (λ h. read (from h), λ w. to (write w))
