-- ===== src/Queues/Trees.antt =====
-- The nodes of a flow and of what is built for it, in the order of a walk from the root.
use shared_ts_libs.Base.{
  Bool, ◌≡◌, refl, sym, ◌∙◌, List, [], ◌∷◌, ◌++◌, map, map-append, Option, none, String,
}
use mathlib.Core.Path.{subst}
use shared_ts_libs.Queues.Options.{Outcome, ok, throws, JobsOptions}
use shared_ts_libs.Queues.Registry.{QueueConfiguration, resolve_queue_id}
use shared_ts_libs.Queues.Dedup.{prepare_job_options-deduplication}
use shared_ts_libs.Queues.Flows.{
  Flow, flow, Flows, no_flow, also_flow, FlowJob, flow_job, FlowJobs, no_job, also_job, and_ok,
  or_text, resolve_child_job_options, resolve_root_job_options, read_node, build_child_flow_job,
  build_children, build_root_flow_job,
}

module _ {Input P Rest : Type 0} where
  abbrev mutual
    pub flow_nodes : Flow Input P Rest → List (String × Input)
    flow_nodes (flow queue_id name input opts children) = (queue_id, input) ∷ flows_nodes children

    pub flows_nodes : Flows Input P Rest → List (String × Input)
    flows_nodes no_flow = []
    flows_nodes (also_flow f fs) = flow_nodes f ++ flows_nodes fs

module _ {P Rest : Type 0} where
  abbrev mutual
    pub job_nodes : FlowJob P Rest → List (String × P)
    job_nodes (flow_job name queue_name payload opts children) =
        (queue_name, payload) ∷ jobs_nodes children

    pub jobs_nodes : FlowJobs P Rest → List (String × P)
    jobs_nodes no_job = []
    jobs_nodes (also_job j js) = job_nodes j ++ jobs_nodes js

  -- No job below has a deduplication.
  abbrev mutual
    pub ArePlain : FlowJobs P Rest → Type 0
    ArePlain no_job = Unit
    ArePlain (also_job j js) = IsPlain j × ArePlain js

    pub IsPlain : FlowJob P Rest → Type 0
    IsPlain (flow_job name queue_name payload opts children) =
        (opts.deduplication ≡ none) × ArePlain children

  abbrev pub children_of : FlowJob P Rest → FlowJobs P Rest
  children_of (flow_job name queue_name payload opts children) = children

and_ok-ok :
    {A B : Type 0}
    → (r : Outcome A) (k : A → Outcome B) {b : B} → and_ok r k ≡ ok b
    → (a : A) × (r ≡ ok a) × (k a ≡ ok b)
and_ok-ok (ok a) k h = (a, refl, h)
and_ok-ok (throws e) k h = cc

ok-injective : {A : Type 0} {a b : A} → ok a ≡ ok b → a ≡ b
ok-injective h = cc

module _ {Input P Rest : Type 0}
    (merge : JobsOptions P Rest → JobsOptions P Rest → JobsOptions P Rest)
    (no_keys : JobsOptions P Rest) (strip_rest : Rest → Rest) (uuid : P → String) (is_test : Bool)
    (configs : List (QueueConfiguration Input P Rest)) where
  -- Where a node goes, and with which payload.
  abbrev pub sent : String × Input → Outcome (String × P)
  sent n =
      and_ok (read_node merge no_keys strip_rest uuid is_test configs n.0 n.1)
        λ (cp : QueueConfiguration Input P Rest × P). ok (resolve_queue_id cp.0, cp.1)

  -- Each node is sent, in order.
  abbrev pub AreSent : List (String × Input) → List (String × P) → Type 0
  AreSent asked sends = map ok sends ≡ map sent asked

  abbrev IsChildBuilt : Flow Input P Rest → FlowJob P Rest → Type 0
  IsChildBuilt f j = AreSent (flow_nodes f) (job_nodes j) × IsPlain j

  abbrev AreBuilt : Flows Input P Rest → FlowJobs P Rest → Type 0
  AreBuilt fs js = AreSent (flows_nodes fs) (jobs_nodes js) × ArePlain js

  abbrev pub IsBuilt : Flow Input P Rest → FlowJob P Rest → Type 0
  IsBuilt f j = AreSent (flow_nodes f) (job_nodes j) × ArePlain (children_of j)

  sent-ok :
      (queue_id : String) (input : Input) {cp : QueueConfiguration Input P Rest × P}
      → read_node merge no_keys strip_rest uuid is_test configs queue_id input ≡ ok cp
      → ok (resolve_queue_id cp.0, cp.1) ≡ sent (queue_id, input)
  sent-ok queue_id input r = rw r refl

  module _
      (merge_plain : (a b : JobsOptions P Rest)
        → a.deduplication ≡ none
        → b.deduplication ≡ none
        → (merge a b).deduplication ≡ none) where
    resolve_child_job_options-deduplication :
        (c : QueueConfiguration Input P Rest) (payload : P) (options : Option (JobsOptions P Rest))
        → (resolve_child_job_options merge no_keys strip_rest uuid is_test configs c payload
            options).deduplication
          ≡ none
    unfolding resolve_child_job_options
    resolve_child_job_options-deduplication c payload options =
        prepare_job_options-deduplication is_test (uuid payload) _ ∙ merge_plain _ _ refl refl

    mutual
      unfolding build_child_flow_job build_children

      build_child_flow_job-nodes :
          (f : Flow Input P Rest) {j : FlowJob P Rest}
          → build_child_flow_job merge no_keys strip_rest uuid is_test configs f ≡ ok j
          → IsChildBuilt f j
      build_child_flow_job-nodes (flow queue_id name input opts children) h =
          let (cp, read, h₁) = and_ok-ok _ _ h in
          let (js, built, h₂) = and_ok-ok _ _ h₁ in
          let below = build_children-nodes children built in
          subst (IsChildBuilt (flow queue_id name input opts children)) (ok-injective h₂) (
            λ i. sent-ok queue_id input read i ∷ below.0 i,
            (resolve_child_job_options-deduplication cp.0 cp.1 opts, below.1),
          )

      build_children-nodes :
          (fs : Flows Input P Rest) {js : FlowJobs P Rest}
          → build_children merge no_keys strip_rest uuid is_test configs fs ≡ ok js
          → AreBuilt fs js
      build_children-nodes no_flow h = subst (AreBuilt no_flow) (ok-injective h) (refl, tt)
      build_children-nodes (also_flow f fs) h =
          let (j, first, h₁) = and_ok-ok _ _ h in
          let (js, rest, h₂) = and_ok-ok _ _ h₁ in
          let one = build_child_flow_job-nodes f first in
          let others = build_children-nodes fs rest in
          subst (AreBuilt (also_flow f fs)) (ok-injective h₂) (
            map-append ok (job_nodes j) (jobs_nodes js)
                ∙ (λ i. one.0 i ++ others.0 i)
                ∙ sym (map-append sent (flow_nodes f) (flows_nodes fs)),
            (one.1, others.1),
          )

    -- Where merging options without deduplication gives options without it: a flow that is built sends
    -- each node, in the order of the flow, to the queue of its id, with the payload that the queue's
    -- schema reads, and no job below the root has a deduplication.
    pub build_root_flow_job-nodes :
        (f : Flow Input P Rest) {j : FlowJob P Rest}
        → build_root_flow_job merge no_keys strip_rest uuid is_test configs f ≡ ok j
        → IsBuilt f j
    unfolding build_root_flow_job
    build_root_flow_job-nodes (flow queue_id name input opts children) h =
        let (cp, read, h₁) = and_ok-ok _ _ h in
        let with_options = λ (o : JobsOptions P Rest) (js : FlowJobs P Rest).
          ok (flow_job (or_text name queue_id) (resolve_queue_id cp.0) cp.1 o js) in
        let (o, resolved, h₂) =
          and_ok-ok
            (resolve_root_job_options merge no_keys strip_rest uuid is_test configs cp.0 cp.1 opts)
            (λ o.
              and_ok (build_children merge no_keys strip_rest uuid is_test configs children)
                (with_options o))
            h₁ in
        let (js, built, h₃) =
          and_ok-ok (build_children merge no_keys strip_rest uuid is_test configs children)
            (with_options o) h₂ in
        let below = build_children-nodes children built in
        subst (IsBuilt (flow queue_id name input opts children)) (ok-injective h₃)
          (λ i. sent-ok queue_id input read i ∷ below.0 i, below.1)
