-- ===== src/Queues/Options.antt =====
-- The options of a job: utils.ts, and `resolveJobOptions` of managers/QueueManager.ts.
use shared_ts_libs.Base.{
  ℕ, ◌*◌, ◌==◌, Bool, false, ◌||◌, Option, none, some, String, codes, every, if◌then◌else◌,
}
use shared_ts_libs.Sse.{is_space}

-- What the operations throw.
pub data QueueError : Type 0 where
  unsupported_queue not_instantiated not_started invalid_payload invalid_deduplication_id :
      QueueError
  no_id_builder undefined_job_id states_empty start_after_end start_rejected rejected no_spy :
      QueueError

pub data Outcome {ℓ} (A : Type ℓ) : Type ℓ where
  ok : A → Outcome A
  throws : QueueError → Outcome A

pub data RemoveOn : Type 0 where
  always : Bool → RemoveOn
  kept_jobs : ℕ → RemoveOn
  keep_jobs : (age count : Option ℕ) → RemoveOn

pub data BackoffType : Type 0 where
  exponential fixed : BackoffType

pub record Backoff : Type 0 where
  pub backoff_type : BackoffType
  pub delay : ℕ

-- `id` or `id_builder` is `none` where the object lacks the key.
pub record Deduplication (P : Type 0) : Type 0 where
  pub id : Option String
  pub id_builder : Option (P → String)
  pub ttl : Option ℕ

-- A key of an object: it may be there with the value `undefined`, which a spread takes over.
pub data Key (A : Type 0) : Type 0 where
  missing set_undefined : Key A
  set_to : A → Key A

-- `rest` stands for the options that the code does not name.
pub record JobsOptions (P Rest : Type 0) : Type 0 where
  pub job_id : Key String
  pub attempts : Key ℕ
  pub backoff : Key Backoff
  pub remove_on_complete : Key RemoveOn
  pub remove_on_fail : Key RemoveOn
  pub delay : Option ℕ
  pub deduplication : Option (Deduplication P)
  pub rest : Rest

pub data JobOptionsSource (P Rest : Type 0) : Type 0 where
  no_options : JobOptionsSource P Rest
  object : JobsOptions P Rest → JobOptionsSource P Rest
  function : (P → JobsOptions P Rest) → JobOptionsSource P Rest

abbrev pub days_to_seconds : ℕ → ℕ
days_to_seconds days = days * 24 * 60 * 60

unfoldable pub is_job_removed_on_complete : Option RemoveOn → Bool
is_job_removed_on_complete none = false
is_job_removed_on_complete (some (always b)) = b
is_job_removed_on_complete (some (kept_jobs n)) = n == 0 || n == 1
is_job_removed_on_complete (some (keep_jobs age none)) = false
is_job_removed_on_complete (some (keep_jobs age (some n))) = n == 0

-- { key: d, ...o } at the key of `o`
unfoldable pub or_else : {A : Type 0} → Key A → A → Key A
or_else missing d = set_to d
or_else set_undefined d = set_undefined
or_else (set_to a) d = set_to a

-- `id.trim().length === 0`; an empty id is falsy besides.
unfoldable pub is_blank : String → Bool
is_blank s = every is_space (codes s)

-- The id that a deduplication gives: its own, or the built one.
unfoldable pub deduplication_id : {P : Type 0} → Deduplication P → P → Outcome String
deduplication_id d payload = elim d.id [
  | some id ↦ ok id
  | none ↦ elim d.id_builder [ none ↦ throws no_id_builder | some build ↦ ok (build payload) ]
]

abbrev pub checked_id : {P : Type 0} → Deduplication P → P → Outcome String
checked_id d payload = elim (deduplication_id d payload) [
  | throws e ↦ throws e
  | ok id ↦ if is_blank id then throws invalid_deduplication_id else ok id
]

module _ {P Rest : Type 0} where
  unfoldable pub with_defaults : String → JobsOptions P Rest → JobsOptions P Rest
  unfolding or_else
  with_defaults uuid o = record o {
    job_id = or_else o.job_id uuid;
    attempts = or_else o.attempts 3;
    backoff = or_else o.backoff (record { backoff_type = exponential; delay = 5000 });
    remove_on_complete =
        or_else o.remove_on_complete (keep_jobs (some (days_to_seconds 3)) (some 50));
    remove_on_fail = or_else o.remove_on_fail (keep_jobs (some (days_to_seconds 7)) none);
  }

  abbrev pub in_test : JobsOptions P Rest → JobsOptions P Rest
  in_test o = record o {
    delay = some 0;
    backoff = set_to (record { backoff_type = fixed; delay = 1 });
  }

  unfoldable pub prepare_job_options : Bool → String → JobsOptions P Rest → JobsOptions P Rest
  unfolding with_defaults
  prepare_job_options is_test uuid o =
      if is_test then in_test (with_defaults uuid o) else with_defaults uuid o

  unfoldable pub default_options : JobOptionsSource P Rest → P → Option (JobsOptions P Rest)
  default_options no_options payload = none
  default_options (object o) payload = some o
  default_options (function f) payload = some (f payload)

  abbrev deduplication_of : Option (JobsOptions P Rest) → Option (Deduplication P)
  deduplication_of none = none
  deduplication_of (some o) = o.deduplication

  abbrev pub with_deduplication_id : String → JobsOptions P Rest → JobsOptions P Rest
  with_deduplication_id id o = record o {
    deduplication = elim o.deduplication [
      | none ↦ some (record { id = some id; id_builder = none; ttl = none })
      | some d ↦ some (record d { id = some id })
    ];
  }

  -- `merge` is that of ts-deepmerge, `no_keys` the object `{}`.
  module _ (merge : JobsOptions P Rest → JobsOptions P Rest → JobsOptions P Rest)
      (no_keys : JobsOptions P Rest) where
    abbrev pub or_no_keys : Option (JobsOptions P Rest) → JobsOptions P Rest
    or_no_keys none = no_keys
    or_no_keys (some o) = o

    -- The deduplication of the default options counts only where the call gives none.
    abbrev pub inherited :
        Option (JobsOptions P Rest) → Option (JobsOptions P Rest) → Option (Deduplication P)
    inherited defaults given = elim (deduplication_of given) [
      | some d ↦ none
      | none ↦ deduplication_of defaults
    ]

    unfoldable pub resolve_job_options :
        (is_test : Bool) (uuid : String)
        → JobOptionsSource P Rest
        → P
        → Option (JobsOptions P Rest)
        → Outcome (JobsOptions P Rest)
    unfolding prepare_job_options default_options
    resolve_job_options is_test uuid source payload given =
        let defaults = default_options source payload in
        let merged = merge (or_no_keys defaults) (or_no_keys given) in
        elim (inherited defaults given) [
          | none ↦ ok (prepare_job_options is_test uuid merged)
          | some d ↦ elim (checked_id d payload) [
            | throws e ↦ throws e
            | ok id ↦ ok (prepare_job_options is_test uuid (with_deduplication_id id merged))
          ]
        ]
