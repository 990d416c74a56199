-- ===== src/Queues/Flows.antt =====
-- managers/FlowManager.ts: trees of jobs that are added at once. The flow producer of BullMQ is an
-- interface, and a start runs to its end.
use shared_ts_libs.Base.{Bool, List, Option, none, some, String}
use shared_ts_libs.JobSpy.{Job}
use shared_ts_libs.Queues.Options.{
  unsupported_queue, invalid_payload, Outcome, ok, throws, JobsOptions, prepare_job_options,
  default_options, or_no_keys, resolve_job_options,
}
use shared_ts_libs.Queues.Registry.{QueueConfiguration, get_queue_config, resolve_queue_id}

-- The tree that is asked for, the one that is handed to the producer, and the one that it returns.
mutual
  pub data Flow (Input P Rest : Type 0) : Type 0 where
    flow :
        (queue_id : String) (name : Option String) (input : Input)
        (opts : Option (JobsOptions P Rest))
        → Flows Input P Rest
        → Flow Input P Rest

  pub data Flows (Input P Rest : Type 0) : Type 0 where
    no_flow : Flows Input P Rest
    also_flow : Flow Input P Rest → Flows Input P Rest → Flows Input P Rest

mutual
  pub data FlowJob (P Rest : Type 0) : Type 0 where
    flow_job :
        (name queue_name : String) (payload : P) (opts : JobsOptions P Rest)
        → FlowJobs P Rest
        → FlowJob P Rest

  pub data FlowJobs (P Rest : Type 0) : Type 0 where
    no_job : FlowJobs P Rest
    also_job : FlowJob P Rest → FlowJobs P Rest → FlowJobs P Rest

mutual
  pub data JobNode (P : Type 0) : Type 0 where
    node : (queue_name : String) → Job P → JobNodes P → JobNode P

  pub data JobNodes (P : Type 0) : Type 0 where
    no_node : JobNodes P
    also_node : JobNode P → JobNodes P → JobNodes P

abbrev pub and_ok : {A B : Type 0} → Outcome A → (A → Outcome B) → Outcome B
and_ok (ok a) k = k a
and_ok (throws e) k = throws e

abbrev pub or_text : Option String → String → String
or_text none d = d
or_text (some s) d = s

-- `merge` and `no_keys` as in `resolve_job_options`; `strip_rest` takes off the keys that the options
-- do not name here (debounce, parent, repeat); `uuid` is what `generateMonotonicUuid` returns for a payload.
module _ {Input P Rest : Type 0}
    (merge : JobsOptions P Rest → JobsOptions P Rest → JobsOptions P Rest)
    (no_keys : JobsOptions P Rest) (strip_rest : Rest → Rest) (uuid : P → String) (is_test : Bool)
    (configs : List (QueueConfiguration Input P Rest)) where
  abbrev pub strip_child_only_fields : JobsOptions P Rest → JobsOptions P Rest
  strip_child_only_fields o = record o { deduplication = none; rest = strip_rest o.rest }

  unfoldable pub resolve_child_job_options :
      QueueConfiguration Input P Rest → P → Option (JobsOptions P Rest) → JobsOptions P Rest
  resolve_child_job_options c payload options = prepare_job_options is_test (uuid payload) (
      merge
        (strip_child_only_fields (or_no_keys merge no_keys (default_options c.job_options payload)))
        (strip_child_only_fields (or_no_keys merge no_keys options)))

  unfoldable pub resolve_root_job_options :
      QueueConfiguration Input P Rest
      → P
      → Option (JobsOptions P Rest)
      → Outcome (JobsOptions P Rest)
  resolve_root_job_options c payload options =
      resolve_job_options merge no_keys is_test (uuid payload) c.job_options payload options

  -- The payload of a node, as the configuration of its queue parses it.
  unfoldable pub read_node : String → Input → Outcome (QueueConfiguration Input P Rest × P)
  read_node queue_id input = elim (get_queue_config configs queue_id) [
    | none ↦ throws unsupported_queue
    | some c ↦ elim (c.parse input) [ none ↦ throws invalid_payload | some p ↦ ok (c, p) ]
  ]

  unfoldable mutual
    pub build_child_flow_job : Flow Input P Rest → Outcome (FlowJob P Rest)
    build_child_flow_job (flow queue_id name input opts children) =
        let built = build_children children in
        and_ok (read_node queue_id input) λ (cp : QueueConfiguration Input P Rest × P).
          and_ok built λ (js : FlowJobs P Rest). ok (
            flow_job (or_text name queue_id) (resolve_queue_id cp.0) cp.1
              (resolve_child_job_options cp.0 cp.1 opts) js)

    pub build_children : Flows Input P Rest → Outcome (FlowJobs P Rest)
    build_children no_flow = ok no_job
    build_children (also_flow f fs) =
        let rest = build_children fs in
        and_ok (build_child_flow_job f)
          λ (j : FlowJob P Rest). and_ok rest λ (js : FlowJobs P Rest). ok (also_job j js)

  unfoldable pub build_root_flow_job : Flow Input P Rest → Outcome (FlowJob P Rest)
  build_root_flow_job (flow queue_id name input opts children) =
      and_ok (read_node queue_id input) λ (cp : QueueConfiguration Input P Rest × P).
        and_ok (resolve_root_job_options cp.0 cp.1 opts) λ (o : JobsOptions P Rest).
          and_ok (build_children children) λ (js : FlowJobs P Rest).
            ok (flow_job (or_text name queue_id) (resolve_queue_id cp.0) cp.1 o js)
