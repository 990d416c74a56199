-- ===== src/Queues/Manager.antt =====
-- managers/QueueManager.ts: starting queues, scheduling jobs and reading them.
use shared_ts_libs.Base.{
  Bool, true, false, List, [], ◌∷◌, Option, none, some, String, str_eq, contains, Dict, lookup,
  insert, if◌then◌else◌,
}
use shared_ts_libs.JobSpy.{Job, Spy, empty_spy, scheduled, add_job, add_jobs}
use shared_ts_libs.Queues.Options.{
  QueueError, unsupported_queue, not_instantiated, not_started, invalid_payload, undefined_job_id,
  start_rejected, rejected, Outcome, ok, throws, JobsOptions, resolve_job_options,
}
use shared_ts_libs.Queues.Registry.{
  QueueConfiguration, Backend, Enabled, only, get_queue_config, queue_ids, start_registry,
  close_each,
}

pub record QueueManagerConfig : Type 0 where
  pub is_test : Bool
  pub lazy_init_enabled : Bool

-- `is_rejected`: `startPromise` is there, and rejected.
pub record Manager {P Rest : Type 0} (backend : Backend P Rest) : Type 0 where
  pub queues : List String
  pub is_rejected : Bool
  pub spies : Dict (Spy P)
  pub state : backend.State

pub data Enabling : Type 0 where
  disabled : Enabling
  enabled : Enabled → Enabling

pub record JobsPage (P : Type 0) : Type 0 where
  pub jobs : List (Job P)
  pub has_more : Bool

abbrev pub and_then : {M A B : Type 0} → Outcome A × M → (A → M → Outcome B × M) → Outcome B × M
and_then (ok a, m) k = k a m
and_then (throws e, m) k = (throws e, m)

abbrev pub of_option : {A : Type 0} → QueueError → Option A → Outcome A
of_option e none = throws e
of_option e (some a) = ok a

-- The payloads, parsed in turn: the first that is refused throws.
unfoldable pub parse_each : {Input P : Type 0} → (Input → Option P) → List Input → Option (List P)
parse_each parse [] = some []
parse_each parse (i ∷ is) =
    let rest = parse_each parse is in
    elim (parse i) [ none ↦ none | some p ↦ elim rest [ none ↦ none | some ps ↦ some (p ∷ ps) ] ]

-- The ids, where all are neither undefined nor empty.
unfoldable pub job_ids : {P : Type 0} → List (Job P) → Option (List String)
job_ids [] = some []
job_ids (j ∷ js) =
    let rest = job_ids js in
    elim j.id [
      | none ↦ none
      | some id ↦
          if str_eq id "" then none else elim rest [ none ↦ none | some ids ↦ some (id ∷ ids) ]
    ]

module _ {P Rest : Type 0} (backend : Backend P Rest) where
  abbrev pub is_started : Manager backend → Bool
  is_started m = elim m.queues [ [] ↦ false | _ ∷ _ ↦ true ]

  abbrev pub started :
      Manager backend → Bool × List String × backend.State → Outcome (Unit {0}) × Manager backend
  started m (true, queues, s) = (ok tt, record m { queues = queues; state = s })
  started m (false, queues, s) =
      (throws start_rejected, record m { queues = queues; state = s; is_rejected = true })

  -- `getQueue(queueId)`, where the queue is then named by its id.
  unfoldable pub get_queue : String → Manager backend → Outcome (Unit {0})
  get_queue id m = if contains id m.queues then ok tt else throws not_instantiated

  unfoldable pub record_scheduled_job : String → Job P → Manager backend → Manager backend
  record_scheduled_job id job m = elim (lookup id m.spies) [
    | none ↦ m
    | some spy ↦ record m { spies = insert id (add_job spy job scheduled) m.spies }
  ]

  abbrev pub record_scheduled_jobs : String → List (Job P) → Manager backend → Manager backend
  record_scheduled_jobs id jobs m = elim (lookup id m.spies) [
    | none ↦ m
    | some spy ↦ record m { spies = insert id (add_jobs spy jobs scheduled) m.spies }
  ]

  -- What follows the answer of `add`.
  abbrev pub added :
      String
      → P
      → Manager backend
      → Option (Option String) × backend.State
      → Outcome String × Manager backend
  added queue_id payload m (none, s) = (throws rejected, record m { state = s })
  added queue_id payload m (some none, s) = (throws undefined_job_id, record m { state = s })
  added queue_id payload m (some (some id), s) =
      if str_eq id "" then (throws undefined_job_id, record m { state = s }) else (
        ok id,
        record_scheduled_job queue_id (record { id = some id; payload = payload })
            (record m { state = s }),
      )

module _ {Input P Rest : Type 0} (backend : Backend P Rest) (config : QueueManagerConfig)
    (configs : List (QueueConfiguration Input P Rest)) where
  abbrev spies_for : List String → Dict (Spy P) → Dict (Spy P)
  spies_for [] spies = spies
  spies_for (id ∷ ids) spies = spies_for ids (insert id empty_spy spies)

  unfoldable pub new_manager : backend.State → Manager backend
  new_manager s = record {
    queues = [];
    is_rejected = false;
    spies = if config.is_test then spies_for (queue_ids configs) [] else [];
    state = s;
  }

  -- A promise that is rejected is kept, so that a later call awaits it again.
  unfoldable pub start : Enabling → Manager backend → Outcome (Unit {0}) × Manager backend
  unfolding start_registry
  start disabled m = (ok tt, m)
  start (enabled which) m = elim (is_started backend m) [
    | true ↦ (ok tt, m)
    | false ↦ elim m.is_rejected [
      | true ↦ (throws start_rejected, m)
      | false ↦ started backend m (start_registry backend configs which m.queues m.state)
    ]
  ]

  unfoldable pub dispose : Manager backend → Manager backend
  unfolding close_each
  dispose m = elim (is_started backend m) [
    | false ↦ m
    | true ↦ record m { queues = []; state = close_each backend configs m.queues m.state }
  ]

  unfoldable pub start_if_not_started :
      String → Manager backend → Outcome (Unit {0}) × Manager backend
  unfolding start
  start_if_not_started id m = elim (is_started backend m) [
    | true ↦ start (enabled (only (id ∷ []))) m
    | false ↦ elim config.lazy_init_enabled [
      | false ↦ (throws not_started, m)
      | true ↦ start (enabled (only (id ∷ []))) m
    ]
  ]

module _ {Input P Rest : Type 0} (backend : Backend P Rest)
    (merge : JobsOptions P Rest → JobsOptions P Rest → JobsOptions P Rest)
    (no_keys : JobsOptions P Rest) (config : QueueManagerConfig)
    (configs : List (QueueConfiguration Input P Rest)) where
  -- `uuid` is what `generateMonotonicUuid` returns.
  unfoldable pub add_to_queue :
      String
      → String
      → QueueConfiguration Input P Rest
      → P
      → Option (JobsOptions P Rest)
      → Manager backend
      → Outcome String × Manager backend
  unfolding get_queue resolve_job_options
  add_to_queue uuid id c payload options m =
      and_then (get_queue backend id m, m)
        λ _ m.
          and_then
            (resolve_job_options merge no_keys config.is_test uuid c.job_options payload options, m)
            λ o m. added backend id payload m (backend.add_job m.state id payload o)

  unfoldable pub schedule :
      String
      → String
      → Input
      → Option (JobsOptions P Rest)
      → Manager backend
      → Outcome String × Manager backend
  unfolding start_if_not_started add_to_queue get_queue_config
  schedule uuid id input options m = elim (get_queue_config configs id) [
    | none ↦ (throws unsupported_queue, m)
    | some c ↦ elim (c.parse input) [
      | none ↦ (throws invalid_payload, m)
      | some payload ↦
          and_then (start_if_not_started backend config configs id m)
            λ _ m. add_to_queue uuid id c payload options m
    ]
  ]
