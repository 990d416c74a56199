-- ===== src/Queues/Producer.antt =====
-- managers/FlowManager.ts: its producer, the adding of flows, and what the spies of the queue manager
-- then hold.
use shared_ts_libs.Base.{
  Bool, true, false, List, [], ◌∷◌, Option, none, some, String, str_eq, Dict, lookup, insert,
  if◌then◌else◌,
}
use shared_ts_libs.JobSpy.{Job}
use shared_ts_libs.Queues.Options.{not_started, start_rejected, rejected, Outcome, ok, throws}
use shared_ts_libs.Queues.Registry.{
  QueueConfiguration, Backend, get_queue_config, queue_ids, resolve_queue_id, to_set,
}
use shared_ts_libs.Queues.Manager.{Manager, record_scheduled_job}
use shared_ts_libs.Queues.Flows.{FlowJob, JobNode, node, JobNodes, no_node, also_node}

-- The flow producer of BullMQ: `none` and `false` are rejections.
pub record FlowBackend (P Rest : Type 0) : Type 1 where
  pub State : Type 0
  -- `buildFlowProducer`, and whether `waitUntilReady` then resolves
  pub build_flow_producer : State → Bool × State
  pub close : State → State
  pub add : State → FlowJob P Rest → Option (JobNode P) × State
  pub add_bulk : State → List (FlowJob P Rest) → Option (List (JobNode P)) × State

-- The flow manager with the queue manager that it is paired with.
pub record Paired {P Rest : Type 0} (backend : Backend P Rest) (flows : FlowBackend P Rest)
    : Type 0 where
  pub has_producer : Bool
  pub producer_state : flows.State
  pub manager : Manager backend

module _ {P Rest : Type 0} (backend : Backend P Rest) (flows : FlowBackend P Rest) where
  abbrev pub producer_built :
      Paired backend flows → Bool × flows.State → Outcome (Unit {0}) × Paired backend flows
  producer_built m (true, s) = (ok tt, record m { has_producer = true; producer_state = s })
  producer_built m (false, s) = (throws start_rejected, record m { producer_state = flows.close s })

  -- A start that is rejected closes what it opened, and keeps no promise.
  abbrev pub start_from :
      (has_producer : Bool) → Paired backend flows → Outcome (Unit {0}) × Paired backend flows
  start_from true m = (ok tt, m)
  start_from false m = producer_built m (flows.build_flow_producer m.producer_state)

  unfoldable pub start_producer : Paired backend flows → Outcome (Unit {0}) × Paired backend flows
  start_producer m = start_from m.has_producer m

  unfoldable pub dispose_producer : Paired backend flows → Paired backend flows
  dispose_producer m =
      if m.has_producer
      then record m { has_producer = false; producer_state = flows.close m.producer_state }
      else m

  abbrev pub start_unless :
      (has_producer lazy_init_enabled : Bool)
      → Paired backend flows
      → Outcome (Unit {0}) × Paired backend flows
  start_unless false false m = (throws not_started, m)
  start_unless has_producer lazy_init_enabled m = start_producer m

  unfoldable pub start_producer_if_not_started :
      (lazy_init_enabled : Bool) → Paired backend flows → Outcome (Unit {0}) × Paired backend flows
  unfolding start_producer
  start_producer_if_not_started lazy_init_enabled m =
      start_unless m.has_producer lazy_init_enabled m

module _ {Input P Rest : Type 0} (configs : List (QueueConfiguration Input P Rest)) where
  abbrev names_of_ids : List String → Dict String → Dict String
  names_of_ids [] names = names
  names_of_ids (id ∷ ids) names = names_of_ids ids (elim (get_queue_config configs id) [
    | none ↦ names
    | some c ↦ insert (resolve_queue_id c) id names
  ])

  unfoldable pub queue_id_by_resolved_name : Dict String
  queue_id_by_resolved_name = names_of_ids (to_set [] (queue_ids configs)) []

module _ {P Rest : Type 0} (backend : Backend P Rest) (is_test : Bool) (names : Dict String) where
  -- One node: only in tests, with an id, and for a queue that the flow manager knows.
  unfoldable pub record_job : String → Job P → Manager backend → Manager backend
  record_job queue_name job m = elim is_test [
    | false ↦ m
    | true ↦ elim job.id [
      | none ↦ m
      | some id ↦ if str_eq id "" then m else (elim (lookup queue_name names) [
        | none ↦ m
        | some queue_id ↦
            if str_eq queue_id "" then m else record_scheduled_job backend queue_id job m
      ])
    ]
  ]

  unfoldable mutual
    pub record_node : JobNode P → Manager backend → Manager backend
    record_node (node queue_name job children) m =
        record_children children (record_job queue_name job m)

    pub record_children : JobNodes P → Manager backend → Manager backend
    record_children no_node m = m
    record_children (also_node n ns) m = record_children ns (record_node n m)

  unfoldable pub record_nodes : List (JobNode P) → Manager backend → Manager backend
  record_nodes [] m = m
  record_nodes (n ∷ ns) m = record_nodes ns (record_node n m)

module _ {Input P Rest : Type 0} (backend : Backend P Rest) (flows : FlowBackend P Rest)
    (lazy_init_enabled is_test : Bool) (configs : List (QueueConfiguration Input P Rest)) where
  -- What follows the answer of the producer.
  abbrev pub flow_added :
      Paired backend flows
      → Option (JobNode P) × flows.State
      → Outcome (JobNode P) × Paired backend flows
  flow_added m (none, s) = (throws rejected, record m { producer_state = s })
  flow_added m (some n, s) = (
    ok n,
    record m {
      producer_state = s;
      manager = record_node backend is_test (queue_id_by_resolved_name configs) n m.manager;
    },
  )

  abbrev pub add_started :
      FlowJob P Rest
      → Outcome (Unit {0}) × Paired backend flows
      → Outcome (JobNode P) × Paired backend flows
  add_started job (throws e, m) = (throws e, m)
  add_started job (ok u, m) = flow_added m (flows.add m.producer_state job)

  abbrev pub flows_added :
      Paired backend flows
      → Option (List (JobNode P)) × flows.State
      → Outcome (List (JobNode P)) × Paired backend flows
  flows_added m (none, s) = (throws rejected, record m { producer_state = s })
  flows_added m (some ns, s) = (
    ok ns,
    record m {
      producer_state = s;
      manager = record_nodes backend is_test (queue_id_by_resolved_name configs) ns m.manager;
    },
  )

  abbrev pub add_bulk_started :
      List (FlowJob P Rest)
      → Outcome (Unit {0}) × Paired backend flows
      → Outcome (List (JobNode P)) × Paired backend flows
  add_bulk_started jobs (throws e, m) = (throws e, m)
  add_bulk_started jobs (ok u, m) = flows_added m (flows.add_bulk m.producer_state jobs)

  -- `root` is what `buildRootFlowJob` makes of the flow.
  unfoldable pub add_flow :
      Outcome (FlowJob P Rest) → Paired backend flows → Outcome (JobNode P) × Paired backend flows
  unfolding start_producer_if_not_started record_node
  add_flow (throws e) m = (throws e, m)
  add_flow (ok job) m =
      add_started job (start_producer_if_not_started backend flows lazy_init_enabled m)

  -- `roots` is what `buildRootFlowJob` makes of the flows, up to the first that it refuses.
  unfoldable pub add_flow_bulk :
      Outcome (List (FlowJob P Rest))
      → Paired backend flows
      → Outcome (List (JobNode P)) × Paired backend flows
  unfolding start_producer_if_not_started record_nodes
  add_flow_bulk (throws e) m = (throws e, m)
  add_flow_bulk (ok []) m = (ok [], m)
  add_flow_bulk (ok (job ∷ jobs)) m =
      add_bulk_started (job ∷ jobs)
        (start_producer_if_not_started backend flows lazy_init_enabled m)
