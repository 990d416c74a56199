-- ===== src/Queues/Calls.antt =====
-- managers/QueueManager.ts: many jobs at once, a page of the jobs of a queue, and its spy.
use shared_ts_libs.Base.{
  ℕ, ◌+◌, ◌-◌, ltb, Bool, List, [], ◌∷◌, Option, none, some, String, lookup, length, take,
  if◌then◌else◌,
}
use shared_ts_libs.JobSpy.{Job, Spy}
use shared_ts_libs.Queues.Options.{
  unsupported_queue, invalid_payload, undefined_job_id, states_empty, start_after_end, no_spy,
  rejected, Outcome, ok, throws, JobsOptions, resolve_job_options,
}
use shared_ts_libs.Queues.Registry.{QueueConfiguration, Backend, get_queue_config}
use shared_ts_libs.Queues.Manager.{
  QueueManagerConfig, Manager, JobsPage, and_then, of_option, parse_each, job_ids,
  start_if_not_started, get_queue, record_scheduled_jobs,
}

unfoldable pub resolve_each :
    {P Rest : Type 0}
    → (P → Outcome (JobsOptions P Rest))
    → List P
    → Outcome (List (P × JobsOptions P Rest))
resolve_each resolve [] = ok []
resolve_each resolve (p ∷ ps) =
    let rest = resolve_each resolve ps in
    elim (resolve p) [
      | throws e ↦ throws e
      | ok o ↦ elim rest [ throws e ↦ throws e | ok os ↦ ok ((p, o) ∷ os) ]
    ]

module _ {P Rest : Type 0} (backend : Backend P Rest) where
  -- What follows the answer of `addBulk`.
  abbrev pub bulk_added :
      String
      → Manager backend
      → Option (List (Job P)) × backend.State
      → Outcome (List String) × Manager backend
  bulk_added id m (none, s) = (throws rejected, record m { state = s })
  bulk_added id m (some [], s) = (throws undefined_job_id, record m { state = s })
  bulk_added id m (some (j ∷ js), s) = elim (job_ids (j ∷ js)) [
    | none ↦ (throws undefined_job_id, record m { state = s })
    | some ids ↦ (ok ids, record_scheduled_jobs backend id (j ∷ js) (record m { state = s }))
  ]

  unfoldable pub get_spy : String → Manager backend → Outcome (Spy P)
  get_spy id m = of_option no_spy (lookup id m.spies)

module _ {Input P Rest : Type 0} (backend : Backend P Rest)
    (merge : JobsOptions P Rest → JobsOptions P Rest → JobsOptions P Rest)
    (no_keys : JobsOptions P Rest) (config : QueueManagerConfig)
    (configs : List (QueueConfiguration Input P Rest)) where
  -- `uuid` gives what `generateMonotonicUuid` returns for each payload.
  unfoldable pub schedule_bulk :
      (P → String)
      → String
      → List Input
      → Option (JobsOptions P Rest)
      → Manager backend
      → Outcome (List String) × Manager backend
  unfolding parse_each job_ids resolve_each
  schedule_bulk uuid id [] options m = (ok [], m)
  schedule_bulk uuid id (i ∷ is) options m = elim (get_queue_config configs id) [
    | none ↦ (throws unsupported_queue, m)
    | some c ↦ elim (parse_each c.parse (i ∷ is)) [
      | none ↦ (throws invalid_payload, m)
      | some payloads ↦ and_then (start_if_not_started backend config configs id m) λ _ m.
          and_then (get_queue backend id m, m)
            λ _ m.
              and_then
                (
                  resolve_each
                      (λ p.
                        resolve_job_options merge no_keys config.is_test (uuid p) c.job_options p
                          options)
                      payloads,
                  m,
                )
                λ jobs m. bulk_added backend id m (backend.add_bulk m.state id jobs)
    ]
  ]

abbrev pub page_of : {P : Type 0} → ℕ → ℕ → List (Job P) → JobsPage P
page_of first last jobs =
    let expected = 1 + (last - first) in
    record { jobs = take expected jobs; has_more = ltb expected (length jobs) }

module _ {Input P Rest : Type 0} (backend : Backend P Rest) (config : QueueManagerConfig)
    (configs : List (QueueConfiguration Input P Rest)) where
  unfoldable pub get_jobs_in_queue :
      String
      → List String
      → (first last : ℕ) → (asc : Bool) → Manager backend
      → Outcome (JobsPage P) × Manager backend
  get_jobs_in_queue id [] first last asc m = (throws states_empty, m)
  get_jobs_in_queue id (s ∷ states) first last asc m =
      if ltb last first
      then (throws start_after_end, m)
      else and_then (start_if_not_started backend config configs id m) λ _ m.
        and_then (get_queue backend id m, m)
          λ _ m.
            and_then
              (
                of_option rejected (backend.get_jobs m.state id (s ∷ states) first (last + 1) asc),
                m,
              )
              λ jobs m. (ok (page_of first last jobs), m)
