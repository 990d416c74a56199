-- ===== src/Routing/Conventions.antt =====
-- Which configurations of topics and queues are accepted.
use shared_ts_libs.Base.{
  ◌↔◌, ℕ, Bool, true, false, ◌≡◌, ◌≤◌, refl, arith, ltb, ◌==◌, ◌||◌, ◌∙◌, List, [], ◌∷◌, ◌++◌,
  Option, none, some, Text, starts_with, length, drop, All, Bool-cases, inl, inr, ◌⊎◌,
  if◌then◌else◌,
}
use shared_ts_libs.Routing.Regex.{Regex, test}
use shared_ts_libs.Routing.Names.{
  QueueConfig, TopicConfig, RoutingError, queue_too_long, topic_too_long, queue_without_project,
  topic_without_project, invalid_queue, invalid_topic, topic_name_regex, queue_name_regex,
  check_name, validate_queue, or_next, validate_queue_config, validate_topic,
  validate_topics_config, Removal,
}
use shared_ts_libs.Routing.Grammar.{
  IsWords, IsGroups, IsSuffix, topic_name_regex_iff, queue_name_regex_iff,
}

-- One of ^ $ . * + ? ( ) [ ] { } | and the backslash.
abbrev pub is_syntax_character : ℕ → Bool
is_syntax_character c =
    c == 94
    || c == 36
    || c == 92
    || c == 46
    || c == 42
    || c == 43
    || c == 63
    || c == 40
    || c == 41
    || c == 91
    || c == 93
    || c == 123
    || c == 125
    || c == 124

-- As a pattern, the project stands for itself.
abbrev pub IsPlain : Text → Type 0
IsPlain project = All (λ c. is_syntax_character c ≡ false) project

-- The runtime removes a plain project from the start of a name.
abbrev pub RemovesPlain : Removal → Type 0
RemovesPlain remove = (project s : Text) → IsPlain project → remove project (project ++ s) ≡ some s

-- The project, and then a text of the kind.
abbrev pub IsNamed : Text → (Text → Type 0) → Text → Type 0
IsNamed project P name = (s : Text) × (name ≡ project ++ s) × IsSuffix P s

abbrev pub IsQueue : Text → QueueConfig → Type 0
IsQueue project q =
    (length q.queue_name ≤ 64)
    × ((q.is_external ≡ true) ⊎ IsNamed project (IsGroups 3) q.queue_name)

abbrev pub IsTopic : Text → TopicConfig → Type 0
IsTopic project t =
    (length t.topic_name ≤ 246)
    × ((t.is_external ≡ true) ⊎ IsNamed project IsWords t.topic_name)
    × All (IsQueue project) t.queues

pub starts_with-append : (p s : Text) → starts_with p (p ++ s) ≡ true
starts_with-append [] s = refl
starts_with-append (c ∷ p) s = ground (arith, starts_with-append p s)

pub drop-append : (p s : Text) → drop (length p) (p ++ s) ≡ s
drop-append [] s = refl
drop-append (c ∷ p) s = drop-append p s

starts_with-drop : (p name : Text) → starts_with p name ≡ true → name ≡ p ++ drop (length p) name
starts_with-drop [] name h = refl
starts_with-drop (c ∷ p) [] h = absurd (ground arith)
starts_with-drop (c ∷ p) (d ∷ name) h = ground (arith, h, starts_with-drop p name)

module _ (remove : Removal) (lawful : RemovesPlain remove) (pattern : Regex)
    (without invalid : Text → RoutingError) (P : Text → Type 0)
    (grammar : (t : Text) → (test pattern t ≡ true) ↔ IsSuffix P t) (project name : Text)
    (plain : IsPlain project) where
  removed_suffix :
      starts_with project name ≡ true → remove project name ≡ some (drop (length project) name)
  removed_suffix s =
      let whole = starts_with-drop project name s in
      (λ i. remove project (whole i)) ∙ lawful project (drop (length project) name) plain

  check_name-IsNamed :
      check_name remove pattern without invalid project name ≡ none → IsNamed project P name
  unfolding check_name
  check_name-IsNamed h = elim (Bool-cases (starts_with project name)) [
    | inl s ↦ elim (Bool-cases (test pattern (drop (length project) name))) [
      | inl fits ↦ (drop (length project) name, starts_with-drop project name s, (grammar _).0 fits)
      | inr other ↦ absurd (ground (arith, s, other, removed_suffix s, h))
    ]
    | inr s ↦ absurd (ground (arith, s, h))
  ]

  IsNamed-check_name :
      IsNamed project P name → check_name remove pattern without invalid project name ≡ none
  unfolding check_name
  IsNamed-check_name (s, e, fits) =
      rw (e, check_name)
        (rw (starts_with-append project s, lawful project s plain, (grammar s).1 fits) refl)

limited_iff :
    (most n : ℕ) (e : RoutingError) (c : Option RoutingError)
    → ((if ltb most n then some e else c) ≡ none) ↔ ((n ≤ most) × (c ≡ none))
limited_iff most n e c = (λ h. ground (arith, h), λ (h, k). ground (arith, h, k))

unless_iff :
    (b : Bool) (c : Option RoutingError)
    → ((if b then none else c) ≡ none) ↔ ((b ≡ true) ⊎ (c ≡ none))
unless_iff true c = (λ _. inl refl, λ _. refl)
unless_iff false c = (λ h. inr h, λ h. elim h [ inl e ↦ absurd (ground (arith, e)) | inr k ↦ k ])

or_next_iff : (a b : Option RoutingError) → (or_next a b ≡ none) ↔ ((a ≡ none) × (b ≡ none))
or_next_iff none b = (λ h. (refl, h), λ h. h.1)
or_next_iff (some e) b = (λ h. absurd (ground (arith, h)), λ h. absurd (ground (arith, h.0)))

map_right : {A B C : Type 0} → (B → C) → A ⊎ B → A ⊎ C
map_right f (inl a) = inl a
map_right f (inr b) = inr (f b)

module _ (remove : Removal) (lawful : RemovesPlain remove) (project : Text)
    (plain : IsPlain project) where
  validate_queue_iff :
      (q : QueueConfig) → (validate_queue remove project q ≡ none) ↔ IsQueue project q
  unfolding validate_queue
  validate_queue_iff q =
      let check =
        check_name remove queue_name_regex queue_without_project invalid_queue project
          q.queue_name in
      let (from, to) =
        limited_iff 64 (length q.queue_name) (queue_too_long q.queue_name)
          (if q.is_external then none else check) in
      let (open_, close) = unless_iff q.is_external check in
      (
        λ h. (
          (from h).0,
          map_right
              (check_name-IsNamed remove lawful queue_name_regex queue_without_project invalid_queue
                (IsGroups 3) queue_name_regex_iff project q.queue_name plain)
              (open_ (from h).1),
        ),
        λ (short, named). to (
          short,
          close (
              map_right
                (IsNamed-check_name remove lawful queue_name_regex queue_without_project
                  invalid_queue (IsGroups 3) queue_name_regex_iff project q.queue_name plain)
                named),
        ),
      )

  -- For a project without syntax characters of patterns, queues are accepted exactly when each has a name of at most 64 code units and is external or named
  -- by the convention: the project, a hyphen or an underscore, and at most three groups of words.
  pub validate_queue_config_iff :
      (qs : List QueueConfig)
      → (validate_queue_config remove project qs ≡ none) ↔ All (IsQueue project) qs
  unfolding validate_queue_config
  validate_queue_config_iff [] = (λ _. tt, λ _. refl)
  validate_queue_config_iff (q ∷ qs) =
      let (from, to) =
        or_next_iff (validate_queue remove project q) (validate_queue_config remove project qs) in
      let (a, b) = validate_queue_iff q in
      let (c, d) = validate_queue_config_iff qs in
      (λ h. (a (from h).0, c (from h).1), λ (x, y). to (b x, d y))

  validate_topic_iff :
      (t : TopicConfig) → (validate_topic remove project t ≡ none) ↔ IsTopic project t
  unfolding validate_topic
  validate_topic_iff t =
      let check =
        check_name remove topic_name_regex topic_without_project invalid_topic project
          t.topic_name in
      let named = if t.is_external then none else check in
      let rest = validate_queue_config remove project t.queues in
      let (from, to) =
        limited_iff 246 (length t.topic_name) (topic_too_long t.topic_name) (or_next named rest) in
      let (split, join) = or_next_iff named rest in
      let (open_, close) = unless_iff t.is_external check in
      let (a, b) = validate_queue_config_iff t.queues in
      (
        λ h.
            let (short, both) = from h in
            let (x, y) = split both in
            (
              short,
              map_right
                  (check_name-IsNamed remove lawful topic_name_regex topic_without_project
                    invalid_topic IsWords topic_name_regex_iff project t.topic_name plain)
                  (open_ x),
              a y,
            ),
        λ (short, x, y). to (
          short,
          join (
            close (
                map_right
                  (IsNamed-check_name remove lawful topic_name_regex topic_without_project
                    invalid_topic IsWords topic_name_regex_iff project t.topic_name plain)
                  x),
            b y,
          ),
        ),
      )

  pub validate_topics_config_iff :
      (ts : List TopicConfig)
      → (validate_topics_config remove project ts ≡ none) ↔ All (IsTopic project) ts
  unfolding validate_topics_config
  validate_topics_config_iff [] = (λ _. tt, λ _. refl)
  validate_topics_config_iff (t ∷ ts) =
      let (from, to) =
        or_next_iff (validate_topic remove project t) (validate_topics_config remove project ts) in
      let (a, b) = validate_topic_iff t in
      let (c, d) = validate_topics_config_iff ts in
      (λ h. (a (from h).0, c (from h).1), λ (x, y). to (b x, d y))
