-- ===== src/Queues/Walks.antt =====
-- What the spies hold once a flow is added.
use shared_ts_libs.Base.{
  Bool, true, false, ◌≡◌, refl, sym, ap, ◌∙◌, List, [], ◌∷◌, ◌++◌, Option, none, some, String, Dict,
  str_eq, lookup, Bool-cases, Option-cases, inl, inr,
}
use mathlib.Core.Path.{subst}
use shared_ts_libs.JobSpy.{Job}
use shared_ts_libs.Queues.Options.{Outcome, ok, throws}
use shared_ts_libs.Queues.Registry.{QueueConfiguration, Backend}
use shared_ts_libs.Queues.Manager.{Manager, record_scheduled_job}
use shared_ts_libs.Queues.Flows.{FlowJob, JobNode, node, JobNodes, no_node, also_node}
use shared_ts_libs.Queues.Producer.{
  FlowBackend, Paired, producer_built, start_from, start_unless, start_producer,
  start_producer_if_not_started, queue_id_by_resolved_name, record_job, record_node,
  record_children, flow_added, add_started, add_flow,
}

-- The jobs of a tree that is returned, each with the name of its queue, in the order of a walk from the root.
abbrev mutual
  pub tree_jobs : {P : Type 0} → JobNode P → List (String × Job P)
  tree_jobs (node queue_name job children) = (queue_name, job) ∷ trees_jobs children

  pub trees_jobs : {P : Type 0} → JobNodes P → List (String × Job P)
  trees_jobs no_node = []
  trees_jobs (also_node n ns) = tree_jobs n ++ trees_jobs ns

module _ {P Rest : Type 0} (backend : Backend P Rest) (is_test : Bool) (names : Dict String) where
  -- Why a job is not recorded: outside tests, without an id, or for a queue that is not known by its name.
  pub data IsPassedOver (queue_name : String) (job : Job P) : Type 0 where
    outside_tests : is_test ≡ false → IsPassedOver queue_name job
    no_id : job.id ≡ none → IsPassedOver queue_name job
    blank_id : {id : String} → job.id ≡ some id → str_eq id "" ≡ true → IsPassedOver queue_name job
    unknown_queue : lookup queue_name names ≡ none → IsPassedOver queue_name job
    blank_queue :
        {queue_id : String}
        → lookup queue_name names ≡ some queue_id
        → str_eq queue_id "" ≡ true
        → IsPassedOver queue_name job

  -- The spies are told of the jobs in turn: each job that is not passed over is given to the spy of its queue.
  pub data Records : List (String × Job P) → Manager backend → Manager backend → Type 0 where
    all_told : {m : Manager backend} → Records [] m m
    told :
        {queue_name : String} {job : Job P} {rest : List (String × Job P)}
        {m left : Manager backend} {id queue_id : String}
        → is_test ≡ true
        → job.id ≡ some id
        → str_eq id "" ≡ false
        → lookup queue_name names ≡ some queue_id
        → str_eq queue_id "" ≡ false
        → Records rest (record_scheduled_job backend queue_id job m) left
        → Records ((queue_name, job) ∷ rest) m left
    passed_over :
        {queue_name : String} {job : Job P} {rest : List (String × Job P)}
        {m left : Manager backend}
        → IsPassedOver queue_name job
        → Records rest m left
        → Records ((queue_name, job) ∷ rest) m left

  module _ (queue_name : String) (job : Job P) (rest : List (String × Job P))
      (m left : Manager backend) where
    as_told :
        (m' : Manager backend)
        → record_job backend is_test names queue_name job m ≡ m'
        → Records rest (record_job backend is_test names queue_name job m) left
        → Records rest m' left
    as_told m' same r = subst (λ x. Records rest x left) same r

    known_job-Records :
        (id : String)
        → is_test ≡ true
        → job.id ≡ some id
        → str_eq id "" ≡ false
        → Records rest (record_job backend is_test names queue_name job m) left
        → Records ((queue_name, job) ∷ rest) m left
    unfolding record_job
    known_job-Records id t i n r = elim (Option-cases (lookup queue_name names)) [
      | inl missing ↦
          passed_over (unknown_queue missing) (as_told _ (rw (t, i, n, missing, record_job) refl) r)
      | inr (queue_id, known) ↦ elim (Bool-cases (str_eq queue_id "")) [
        | inl blank ↦
            passed_over (blank_queue known blank)
              (as_told _ (rw (t, i, n, known, blank, record_job) refl) r)
        | inr named ↦ told t i n known named (
            as_told (record_scheduled_job backend queue_id job m)
              (simp (t, i, n, known, named, record_job) refl) r)
      ]
    ]

    record_job-Records :
        Records rest (record_job backend is_test names queue_name job m) left
        → Records ((queue_name, job) ∷ rest) m left
    unfolding record_job
    record_job-Records r = elim (Bool-cases is_test) [
      | inr f ↦ passed_over (outside_tests f) (as_told _ (rw (f, record_job) refl) r)
      | inl t ↦ elim (Option-cases job.id) [
        | inl missing ↦ passed_over (no_id missing) (as_told _ (rw (t, missing, record_job) refl) r)
        | inr (id, i) ↦ elim (Bool-cases (str_eq id "")) [
          | inl blank ↦
              passed_over (blank_id i blank) (as_told _ (rw (t, i, blank, record_job) refl) r)
          | inr n ↦ known_job-Records id t i n r
        ]
      ]
    ]

  abbrev record_all : List (String × Job P) → Manager backend → Manager backend
  record_all [] m = m
  record_all (j ∷ js) m = record_all js (record_job backend is_test names j.0 j.1 m)

  record_all-append :
      (js ks : List (String × Job P)) (m : Manager backend)
      → record_all (js ++ ks) m ≡ record_all ks (record_all js m)
  record_all-append [] ks m = refl
  record_all-append (j ∷ js) ks m =
      record_all-append js ks (record_job backend is_test names j.0 j.1 m)

  record_all-Records :
      (js : List (String × Job P)) (m : Manager backend) → Records js m (record_all js m)
  record_all-Records [] m = all_told
  record_all-Records (j ∷ js) m =
      record_job-Records j.0 j.1 js m (record_all (j ∷ js) m)
        (record_all-Records js (record_job backend is_test names j.0 j.1 m))

  mutual
    unfolding record_node record_children

    record_node-all :
        (n : JobNode P) (m : Manager backend)
        → record_node backend is_test names n m ≡ record_all (tree_jobs n) m
    record_node-all (node queue_name job children) m =
        record_children-all children (record_job backend is_test names queue_name job m)

    record_children-all :
        (ns : JobNodes P) (m : Manager backend)
        → record_children backend is_test names ns m ≡ record_all (trees_jobs ns) m
    record_children-all no_node m = refl
    record_children-all (also_node n ns) m =
        record_children-all ns (record_node backend is_test names n m)
        ∙ ap (record_all (trees_jobs ns)) (record_node-all n m)
        ∙ sym (record_all-append (tree_jobs n) (trees_jobs ns) m)

module _ {Input P Rest : Type 0} (backend : Backend P Rest) (flows : FlowBackend P Rest)
    (lazy_init_enabled is_test : Bool) (configs : List (QueueConfiguration Input P Rest)) where
  -- What is left of a paired manager `m`.
  abbrev pub IsAdded :
      Outcome (FlowJob P Rest)
      → Paired backend flows
      → Outcome (JobNode P) × Paired backend flows
      → Type 0
  IsAdded root m (ok n, left) =
      ((job : FlowJob P Rest) × (root ≡ ok job))
      × (left.has_producer ≡ true)
      × Records backend is_test (queue_id_by_resolved_name configs) (tree_jobs n) m.manager
          left.manager
  IsAdded root m (throws e, left) = left.manager ≡ m.manager

  -- A start keeps the queue manager, and leaves a producer where it resolves.
  abbrev IsStart : Paired backend flows → Outcome (Unit {0}) × Paired backend flows → Type 0
  IsStart m (ok u, left) = (left.has_producer ≡ true) × (left.manager ≡ m.manager)
  IsStart m (throws e, left) = left.manager ≡ m.manager

  producer_built-IsStart :
      (m : Paired backend flows) (r : Bool × flows.State)
      → IsStart m (producer_built backend flows m r)
  producer_built-IsStart m (true, s) = (refl, refl)
  producer_built-IsStart m (false, s) = refl

  start_from-IsStart :
      (b : Bool) (m : Paired backend flows)
      → m.has_producer ≡ b
      → IsStart m (start_from backend flows b m)
  start_from-IsStart true m up = (up, refl)
  start_from-IsStart false m down =
      producer_built-IsStart m (flows.build_flow_producer m.producer_state)

  start_producer-IsStart : (m : Paired backend flows) → IsStart m (start_producer backend flows m)
  unfolding start_producer
  start_producer-IsStart m = start_from-IsStart m.has_producer m refl

  start_unless-IsStart :
      (b lazy : Bool) (m : Paired backend flows) → IsStart m (start_unless backend flows b lazy m)
  start_unless-IsStart false false m = refl
  start_unless-IsStart false true m = start_producer-IsStart m
  start_unless-IsStart true lazy m = start_producer-IsStart m

  start_producer_if_not_started-IsStart :
      (m : Paired backend flows)
      → IsStart m (start_producer_if_not_started backend flows lazy_init_enabled m)
  unfolding start_producer_if_not_started
  start_producer_if_not_started-IsStart m = start_unless-IsStart m.has_producer lazy_init_enabled m

  recorded-Records :
      (m left : Paired backend flows) (n : JobNode P)
      → left.manager ≡ m.manager
      → Records backend is_test
          (queue_id_by_resolved_name configs)
          (tree_jobs n)
          m.manager
          (record_node backend is_test (queue_id_by_resolved_name configs) n left.manager)
  recorded-Records m left n same =
      let names = queue_id_by_resolved_name configs in
      let run = record_all-Records backend is_test names (tree_jobs n) m.manager in
      subst (Records backend is_test names (tree_jobs n) m.manager)
        (ap (record_all backend is_test names (tree_jobs n)) (sym same)
          ∙ sym (record_node-all backend is_test names n left.manager))
        run

  flow_added-IsAdded :
      (m left : Paired backend flows) (job : FlowJob P Rest) (r : Option (JobNode P) × flows.State)
      → left.has_producer ≡ true
      → left.manager ≡ m.manager
      → IsAdded (ok job) m (flow_added backend flows lazy_init_enabled is_test configs left r)
  flow_added-IsAdded m left job (none, s) up same = same
  flow_added-IsAdded m left job (some n, s) up same =
      ((job, refl), up, recorded-Records m left n same)

  add_started-IsAdded :
      (m : Paired backend flows) (job : FlowJob P Rest)
      (r : Outcome (Unit {0}) × Paired backend flows)
      → IsStart m r
      → IsAdded (ok job) m (add_started backend flows lazy_init_enabled is_test configs job r)
  add_started-IsAdded m job (throws e, left) h = h
  add_started-IsAdded m job (ok u, left) h =
      flow_added-IsAdded m left job (flows.add left.producer_state job) h.0 h.1

  -- A flow is added only if it could be built and the producer has started; then the jobs of the
  -- returned tree are told of in the order of a walk from the root: in tests, each job that has an
  -- id and whose queue the flow manager knows by its name is given, once, to the spy of that
  -- queue, if there is one, and the others are passed over. A call that throws records nothing.
  pub add_flow-IsAdded :
      (root : Outcome (FlowJob P Rest)) (m : Paired backend flows)
      → IsAdded root m (add_flow backend flows lazy_init_enabled is_test configs root m)
  unfolding add_flow
  add_flow-IsAdded (throws e) m = refl
  add_flow-IsAdded (ok job) m =
      add_started-IsAdded m job (start_producer_if_not_started backend flows lazy_init_enabled m)
        (start_producer_if_not_started-IsStart m)
