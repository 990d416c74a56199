-- ===== src/Queues/Dedup.antt =====
-- What the resolved options of a job guarantee.
use shared_ts_libs.Base.{
  Bool, true, false, ◌≡◌, ◌⊎◌, arith, refl, sym, ◌∙◌, Option, none, some, String, Bool-cases,
  Option-cases, inl, inr, if◌then◌else◌,
}
use mathlib.Core.Path.{subst}
use shared_ts_libs.Queues.Options.{
  QueueError, Outcome, ok, throws, fixed, exponential, keep_jobs, Key, missing, set_undefined,
  set_to, with_defaults, Deduplication, JobsOptions, JobOptionsSource, prepare_job_options,
  default_options, deduplication_id, checked_id, is_blank, inherited, or_no_keys,
  with_deduplication_id, or_else, resolve_job_options, invalid_deduplication_id,
}

-- What a key holds whose default is `d`, where the options given have `o`: the default exactly where they
-- lack the key, so that an `undefined` that they have overrides it.
pub data IsFilled {A : Type 0} (o : Key A) (d : A) : Key A → Type 0 where
  by_default : o ≡ missing → IsFilled o d (set_to d)
  overridden : o ≡ set_undefined → IsFilled o d set_undefined
  as_given : {a : A} → o ≡ set_to a → IsFilled o d (set_to a)

or_else-IsFilled : {A : Type 0} → (o : Key A) (d : A) → IsFilled o d (or_else o d)
unfolding or_else
or_else-IsFilled missing d = by_default refl
or_else-IsFilled set_undefined d = overridden refl
or_else-IsFilled (set_to a) d = as_given refl

-- The options `o` that are made of `given`: its keys, and the defaults at those that it lacks; in tests a
-- job starts at once, and is tried again after a millisecond.
pub record IsPrepared {P Rest : Type 0} (is_test : Bool) (uuid : String)
    (given o : JobsOptions P Rest) : Type 0 where
  pub id : IsFilled given.job_id uuid o.job_id
  pub tries : IsFilled given.attempts 3 o.attempts
  pub completed :
      IsFilled given.remove_on_complete (keep_jobs (some 259200) (some 50)) o.remove_on_complete
  pub failed : IsFilled given.remove_on_fail (keep_jobs (some 604800) none) o.remove_on_fail
  pub at_once : is_test ≡ true → o.delay ≡ some 0
  pub soon : is_test ≡ true → o.backoff ≡ set_to (record { backoff_type = fixed; delay = 1 })
  pub as_asked : is_test ≡ false → o.delay ≡ given.delay
  pub later :
      is_test ≡ false
      → IsFilled given.backoff (record { backoff_type = exponential; delay = 5000 }) o.backoff
  pub others : o.rest ≡ given.rest

Outcome-cases :
    {A : Type 0} → (o : Outcome A) → ((a : A) × (o ≡ ok a)) ⊎ ((e : QueueError) × (o ≡ throws e))
Outcome-cases (ok a) = inl (a, refl)
Outcome-cases (throws e) = inr (e, refl)

some-injective : {A : Type 0} {a b : A} → some a ≡ some b → a ≡ b
some-injective h = cc

accepted_id : String → Outcome String
accepted_id id = if is_blank id then throws invalid_deduplication_id else ok id

accepted_id-ok : (id k : String) → accepted_id id ≡ ok k → (id ≡ k) × (is_blank k ≡ false)
unfolding accepted_id
accepted_id-ok id k = elim (Bool-cases (is_blank id)) [
  | inl b ↦ rw (b, accepted_id) (λ h. cc)
  | inr b ↦ rw (b, accepted_id) (λ h. let same : id ≡ k = cc in (same, rw (sym same) b))
]

checked_id-ok :
    {P : Type 0}
    → (d : Deduplication P) (payload : P) (k : String) → checked_id d payload ≡ ok k
    → (deduplication_id d payload ≡ ok k) × (is_blank k ≡ false)
unfolding accepted_id
checked_id-ok d payload k h = elim (Outcome-cases (deduplication_id d payload)) [
  | inl (id, e) ↦
      let step : checked_id d payload ≡ accepted_id id = rw (e, checked_id) refl in
      let same = accepted_id-ok id k (sym step ∙ h) in (rw (sym same.0) e, same.1)
  | inr (x, e) ↦ let step : checked_id d payload ≡ throws x = rw (e, checked_id) refl in cc
]

module _ {P Rest : Type 0} (is_test : Bool) (uuid : String) where
  prepare_job_options-IsPrepared :
      (o : JobsOptions P Rest) → IsPrepared is_test uuid o (prepare_job_options is_test uuid o)
  unfolding prepare_job_options with_defaults
  prepare_job_options-IsPrepared o =
      elim is_test as (λ t. IsPrepared t uuid o (prepare_job_options t uuid o)) [
        | true ↦ record {
          id = or_else-IsFilled o.job_id uuid;
          tries = or_else-IsFilled o.attempts 3;
          completed = or_else-IsFilled o.remove_on_complete _;
          failed = or_else-IsFilled o.remove_on_fail _;
          at_once = λ _. refl;
          soon = λ _. refl;
          as_asked = λ f. absurd (ground (arith, f));
          later = λ f. absurd (ground (arith, f));
          others = refl;
        }
        | false ↦ record {
          id = or_else-IsFilled o.job_id uuid;
          tries = or_else-IsFilled o.attempts 3;
          completed = or_else-IsFilled o.remove_on_complete _;
          failed = or_else-IsFilled o.remove_on_fail _;
          at_once = λ t. absurd (ground (arith, t));
          soon = λ t. absurd (ground (arith, t));
          as_asked = λ _. refl;
          later = λ _. or_else-IsFilled o.backoff _;
          others = refl;
        }
      ]

  pub prepare_job_options-deduplication :
      (o : JobsOptions P Rest)
      → (prepare_job_options is_test uuid o).deduplication ≡ o.deduplication
  unfolding prepare_job_options
  prepare_job_options-deduplication o = elim (Bool-cases is_test) [
    | inl t ↦ rw t refl
    | inr f ↦ rw f refl
  ]

  with_deduplication_id-id :
      (k : String) (o : JobsOptions P Rest)
      → (d : Deduplication P) × ((with_deduplication_id k o).deduplication ≡ some d)
        × (d.id ≡ some k)
  with_deduplication_id-id k o = elim (Option-cases o.deduplication) [
    | inl e ↦ rw e (record { id = some k; id_builder = none; ttl = none }, refl, refl)
    | inr (d, e) ↦ rw e (record d { id = some k }, refl, refl)
  ]

module _ {P Rest : Type 0} (merge : JobsOptions P Rest → JobsOptions P Rest → JobsOptions P Rest)
    (no_keys : JobsOptions P Rest) (is_test : Bool) (source : JobOptionsSource P Rest) (payload : P)
    (given : Option (JobsOptions P Rest)) where
  -- The deduplication that the job takes over from the options of its queue.
  abbrev pub taken_over : Option (Deduplication P)
  taken_over = inherited merge no_keys (default_options source payload) given

  abbrev merged : JobsOptions P Rest
  merged =
      merge (or_no_keys merge no_keys (default_options source payload))
        (or_no_keys merge no_keys given)

  abbrev pub HasDeduplication : JobsOptions P Rest → Deduplication P → Type 0
  HasDeduplication o d =
      (k : String) × (deduplication_id d payload ≡ ok k)
      × (is_blank k ≡ false)
      × (x : Deduplication P) × (o.deduplication ≡ some x)
      × (x.id ≡ some k)

  prepared_deduplication :
      (uuid : String) (d : Deduplication P) (k : String) (o : JobsOptions P Rest)
      → checked_id d payload ≡ ok k
      → HasDeduplication (prepare_job_options is_test uuid (with_deduplication_id k o)) d
  prepared_deduplication uuid d k o q =
      let named = with_deduplication_id-id is_test uuid k o in
      let checked = checked_id-ok d payload k q in
      (
        k,
        checked.0,
        checked.1,
        named.0,
        prepare_job_options-deduplication is_test uuid (with_deduplication_id k o) ∙ named.1,
        named.2,
      )

  abbrev pub IsResolved : String → Outcome (JobsOptions P Rest) → Type 0
  IsResolved uuid (ok o) =
      IsPrepared is_test uuid merged o
      × ((d : Deduplication P) → taken_over ≡ some d → HasDeduplication o d)
  IsResolved uuid (throws e) =
      (d : Deduplication P) × (taken_over ≡ some d) × (checked_id d payload ≡ throws e)

  named-IsPrepared :
      (uuid k : String)
      → IsPrepared is_test uuid merged
          (prepare_job_options is_test uuid (with_deduplication_id k merged))
  named-IsPrepared uuid k =
      let p = prepare_job_options-IsPrepared is_test uuid (with_deduplication_id k merged) in
      record {
        id = p.id;
        tries = p.tries;
        completed = p.completed;
        failed = p.failed;
        at_once = p.at_once;
        soon = p.soon;
        as_asked = p.as_asked;
        later = p.later;
        others = p.others;
      }

  -- Options that are returned are those of the merge of the queue's options and the call's, and
  -- hold at the keys that it lacks the given id, three attempts, the kept jobs of the default
  -- configuration and, outside tests, an exponential backoff of 5 seconds: a key that it has with
  -- the value undefined overrides the default. In tests a job starts at once and is tried again
  -- after a millisecond. Where the job takes over the deduplication of its queue, they have its
  -- id, which is not blank. Only a deduplication that is taken over and whose id is blank or
  -- cannot be built throws.
  pub resolve_job_options-IsResolved :
      (uuid : String)
      → IsResolved uuid (resolve_job_options merge no_keys is_test uuid source payload given)
  unfolding resolve_job_options
  resolve_job_options-IsResolved uuid = elim (Option-cases taken_over) [
    | inl none_taken ↦
        rw (none_taken, resolve_job_options)
          (prepare_job_options-IsPrepared is_test uuid merged, λ d h. cc)
    | inr (d, e) ↦
        rw (e, resolve_job_options)
          (elim (Outcome-cases (checked_id d payload)) [
            | inl (k, q) ↦ rw q (
              named-IsPrepared uuid k,
              λ d' h.
                  subst
                    (HasDeduplication
                      (prepare_job_options is_test uuid (with_deduplication_id k merged)))
                    (some-injective (sym e ∙ h)) (prepared_deduplication uuid d k merged q),
            )
            | inr (x, q) ↦ rw q (d, e, q)
          ])
  ]
