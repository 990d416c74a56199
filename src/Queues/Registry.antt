-- ===== src/Queues/Registry.antt =====
-- managers/QueueRegistry.ts, with monitoring/registerActiveQueueIds.ts: which queues are built.
-- An operation runs to its end; what else could run while it awaits is left out.
use Prim.Native.String
use shared_ts_libs.Base.{
  ℕ, Bool, true, false, List, [], ◌∷◌, ◌++◌, Option, none, some, String, add, str_eq, if◌then◌else◌,
}
use shared_ts_libs.JobSpy.{Job}
use shared_ts_libs.Queues.Options.{JobOptionsSource, JobsOptions}

pub record QueueConfiguration (Input P Rest : Type 0) : Type 0 where
  pub queue_id : String
  pub bull_dashboard_grouping : List String
  pub parse : Input → Option P
  pub job_options : JobOptionsSource P Rest

-- BullMQ and Redis: `none` and `false` are rejections.
pub record Backend (P Rest : Type 0) : Type 1 where
  pub State : Type 0
  -- `buildQueue`, and whether `waitUntilReady` then resolves
  pub build_queue : State → (name : String) → Bool × State
  pub close : State → (queue_id : String) → State
  pub zadd : State → (member : String) → Bool × State
  pub add_job :
      State → (queue_id : String) → P → JobsOptions P Rest → Option (Option String) × State
  pub add_bulk :
      State → (queue_id : String) → List (P × JobsOptions P Rest) → Option (List (Job P)) × State
  pub get_jobs :
      State
      → (queue_id : String) → (states : List String) → (first last : ℕ) → (asc : Bool)
      → Option (List (Job P))

-- Which queues `start` builds.
pub data Enabled : Type 0 where
  all_queues : Enabled
  only : List String → Enabled

abbrev join : List String → String → String
join [] last = last
join (s ∷ ss) last = String.◌++◌ s (String.◌++◌ "." (join ss last))

abbrev pub to_set : List String → List String → List String
to_set set [] = set
to_set set (k ∷ ks) = to_set (add k set) ks

module _ {Input P Rest : Type 0} where
  unfoldable pub resolve_queue_id : QueueConfiguration Input P Rest → String
  resolve_queue_id c = join c.bull_dashboard_grouping c.queue_id

  abbrev pub queue_ids : List (QueueConfiguration Input P Rest) → List String
  queue_ids [] = []
  queue_ids (c ∷ cs) = c.queue_id ∷ queue_ids cs

  -- A later configuration with the same id replaces an earlier one.
  abbrev pub last_config :
      Option (QueueConfiguration Input P Rest)
      → String
      → List (QueueConfiguration Input P Rest)
      → Option (QueueConfiguration Input P Rest)
  last_config found id [] = found
  last_config found id (c ∷ cs) = last_config (if str_eq c.queue_id id then some c else found) id cs

  unfoldable pub get_queue_config :
      List (QueueConfiguration Input P Rest) → String → Option (QueueConfiguration Input P Rest)
  get_queue_config configs id = last_config none id configs

  module _ (backend : Backend P Rest) (configs : List (QueueConfiguration Input P Rest)) where
    -- The loop over the ids: the queues that are built, whether all get ready, and the configurations.
    pub record Built : Type 0 where
      pub queues : List String
      pub are_ready : Bool
      pub built : List String
      pub state : backend.State

    unfoldable pub build_each : List String → Built → Built
    unfolding get_queue_config resolve_queue_id
    build_each [] b = b
    build_each (id ∷ ids) b = build_each ids (elim (get_queue_config configs id) [
      | none ↦ b
      | some c ↦
          let name = resolve_queue_id c in
          let answer = backend.build_queue b.state name in
          record {
            queues = add id b.queues;
            are_ready = if b.are_ready then answer.0 else false;
            built = (b.built ++ name ∷ []);
            state = answer.1;
          }
    ])

    unfoldable pub register_active_queue_ids : List String → backend.State → Bool × backend.State
    register_active_queue_ids [] s = (true, s)
    register_active_queue_ids (name ∷ names) s = elim (backend.zadd s name).0 [
      | true ↦ register_active_queue_ids names (backend.zadd s name).1
      | false ↦ (false, (backend.zadd s name).1)
    ]

    abbrev pub to_start : Enabled → List String
    to_start all_queues = to_set [] (queue_ids configs)
    to_start (only ids) = to_set [] ids

    -- `start` of the registry: whether it resolves, the queues and the state.
    unfoldable pub start_registry :
        Enabled → List String → backend.State → Bool × List String × backend.State
    unfolding build_each register_active_queue_ids
    start_registry enabled queues s =
        let b =
          build_each (to_start enabled)
            (record { queues = queues; are_ready = true; built = []; state = s }) in
        elim b.are_ready [
          | true ↦
              let answer = register_active_queue_ids b.built b.state in
              (answer.0, b.queues, answer.1)
          | false ↦ (false, b.queues, b.state)
        ]

    unfoldable pub close_each : List String → backend.State → backend.State
    close_each [] s = s
    close_each (id ∷ ids) s = close_each ids (backend.close s id)
