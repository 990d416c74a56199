-- ===== src/Queues/Tests/Trees.antt =====
-- A flow of three jobs, added by a producer that returns what it is given.
use shared_ts_libs.Base.{ℕ, true, false, ◌≡◌, refl, List, [], ◌∷◌, none, some, String}
use shared_ts_libs.Queues.Options.{
  Outcome, ok, throws, invalid_payload, is_blank, default_options, prepare_job_options,
  resolve_job_options,
}
use shared_ts_libs.Queues.Registry.{get_queue_config, resolve_queue_id}
use shared_ts_libs.Queues.Manager.{record_scheduled_job}
use shared_ts_libs.Queues.Flows.{
  JobNode, node, no_node, also_node, Flow, flow, no_flow, also_flow, FlowJob, flow_job, no_job,
  read_node, resolve_child_job_options, resolve_root_job_options, build_children,
  build_root_flow_job,
}
use shared_ts_libs.Queues.Trees.{IsBuilt, build_root_flow_job-nodes, job_nodes}
use shared_ts_libs.Queues.Producer.{
  FlowBackend, Paired, start_producer, start_producer_if_not_started, queue_id_by_resolved_name,
  record_job, record_node, add_flow,
}
use shared_ts_libs.Queues.Walks.{IsAdded, add_flow-IsAdded}
use shared_ts_libs.Queues.Tests.{Options, no_keys, merge, logged, configs, fresh}

flows_run : Unit {0}
unfolding read_node resolve_child_job_options resolve_root_job_options build_root_flow_job
    build_children get_queue_config resolve_queue_id record_scheduled_job is_blank default_options
    prepare_job_options resolve_job_options start_producer start_producer_if_not_started
    queue_id_by_resolved_name record_job record_node add_flow
flows_run = tt

abbrev Asked : Type 0
Asked = Flow String String (Unit {0})

abbrev asked : Asked
asked = flow "email" none "root" none (
    also_flow (flow "sms" (some "first") "one" none no_flow)
      (also_flow (flow "sms" none "two" none no_flow) no_flow))

abbrev kept : Unit {0} → Unit {0}
kept rest = rest

abbrev uuid : String → String
uuid payload = payload

abbrev built : Asked → Outcome (FlowJob String (Unit {0}))
built f = build_root_flow_job merge no_keys kept uuid true configs f

abbrev sends : Outcome (FlowJob String (Unit {0})) → List (String × String)
sends (ok j) = job_nodes j
sends (throws e) = []

sends_test :
    sends (built asked) ≡ ("svc.email", "root") ∷ ("svc.sms", "one") ∷ ("svc.sms", "two") ∷ []
unfolding flows_run
sends_test = refl

invalid_test :
    built (flow "email" none "root" none (also_flow (flow "sms" none "" none no_flow) no_flow))
    ≡ throws invalid_payload
unfolding flows_run
invalid_test = refl

merge_plain :
    (a b : Options)
    → a.deduplication ≡ none
    → b.deduplication ≡ none
    → (merge a b).deduplication ≡ none
merge_plain a b ha hb = ha

abbrev job_of : Outcome (FlowJob String (Unit {0})) → FlowJob String (Unit {0})
job_of (ok j) = j
job_of (throws e) = flow_job "" "" "" no_keys no_job

build_root_flow_job-nodes_example :
    IsBuilt merge no_keys kept uuid true configs asked (job_of (built asked))
unfolding flows_run
build_root_flow_job-nodes_example =
    build_root_flow_job-nodes merge no_keys kept uuid true configs merge_plain asked refl

abbrev returned : JobNode String
returned =
    node "svc.email" (record { id = some "1"; payload = "root" })
      (also_node (node "svc.sms" (record { id = some "2"; payload = "one" }) no_node) no_node)

abbrev echoed : FlowBackend String (Unit {0})
echoed = record {
  State = ℕ;
  build_flow_producer = λ s. (true, s);
  close = λ s. s;
  add = λ s job. (some returned, s);
  add_bulk = λ s jobs. (some (returned ∷ []), s);
}

abbrev paired : Paired logged echoed
paired = record { has_producer = false; producer_state = 0; manager = fresh }

add_flow-IsAdded_example :
    IsAdded logged echoed true true configs
      (built asked)
      paired
      (add_flow logged echoed true true configs (built asked) paired)
add_flow-IsAdded_example = add_flow-IsAdded logged echoed true true configs (built asked) paired
