-- ===== src/Queues/Spied.antt =====
-- Scheduled jobs meet the spy of their queue.
use shared_ts_libs.Base.{
  Bool, true, false, ◌≡◌, refl, ap, ◌∙◌, arith, List, [], ◌∷◌, Option, none, some, String, str_eq,
  eq_iff, lookup, lookup-insert, eq_refl, Bool-cases, inl, inr,
}
use mathlib.Core.Path.{subst}
use shared_ts_libs.JobSpy.{Job, Spy, scheduled, at_once, wait_for_job_with_id, add_job}
use shared_ts_libs.JobSpy.Pending.{wait_for_job_with_id-add_job}
use shared_ts_libs.Queues.Options.{
  QueueError, Outcome, ok, throws, JobsOptions, resolve_job_options,
}
use shared_ts_libs.Queues.Registry.{
  QueueConfiguration, Backend, Enabled, only, start_registry, get_queue_config,
}
use shared_ts_libs.Queues.Manager.{
  QueueManagerConfig, Manager, enabled, and_then, is_started, start, started, start_if_not_started,
  get_queue, record_scheduled_job, added, add_to_queue, schedule,
}

and_then-elim :
    {M A B : Type 0} (Claim : Outcome B × M → Type 0) (r : Outcome A × M)
    (k : A → M → Outcome B × M)
    → ((a : A) → Claim (k a r.1))
    → ((e : QueueError) → Claim (throws e, r.1))
    → Claim (and_then r k)
and_then-elim Claim (ok a, m) k next stop = next a
and_then-elim Claim (throws e, m) k next stop = stop e

module _ {P Rest : Type 0} (backend : Backend P Rest) (queue_id : String) (payload : P) where
  -- Where the call returned an id, the spy of the queue has the job.
  abbrev pub IsSpied : Outcome String × Manager backend → Type 0
  IsSpied r =
      (id : String)
      → r.0 ≡ ok id
      → (spy : Spy P) × (lookup queue_id r.1.spies ≡ some spy)
        × (wait_for_job_with_id spy (some id) scheduled
            ≡ (at_once (record { id = some id; payload = payload }), spy))

  record_scheduled_job-lookup :
      (job : Job P) (m : Manager backend) {spy : Spy P}
      → lookup queue_id m.spies ≡ some spy
      → lookup queue_id (record_scheduled_job backend queue_id job m).spies
        ≡ some (add_job spy job scheduled)
  unfolding record_scheduled_job
  record_scheduled_job-lookup job m {spy} there =
      rw (there, record_scheduled_job)
        (lookup-insert queue_id queue_id (add_job spy job scheduled) m.spies
          ∙ rw (eq_refl queue_id) refl)

  added-IsSpied :
      (m : Manager backend) (r : Option (Option String) × backend.State) {spy : Spy P}
      → lookup queue_id m.spies ≡ some spy
      → IsSpied (added backend queue_id payload m r)
  added-IsSpied m (none, s) there = λ id returned. cc
  added-IsSpied m (some none, s) there = λ id returned. cc
  added-IsSpied m (some (some k), s) {spy} there =
      let job : Job P = record { id = some k; payload = payload } in
      elim (Bool-cases (str_eq k "")) [
        | inl e ↦ rw e (λ id returned. cc)
        | inr e ↦ rw e (λ id returned.
            let same : k ≡ id = cc in
            subst
              (λ (i : String).
                (spy : Spy P) × (lookup queue_id
                    (record_scheduled_job backend queue_id job (record m { state = s })).spies
                  ≡ some spy)
                × (wait_for_job_with_id spy (some i) scheduled
                    ≡ (at_once (record { id = some i; payload = payload }), spy)))
              same
              (
                add_job spy job scheduled,
                record_scheduled_job-lookup job (record m { state = s }) there,
                wait_for_job_with_id-add_job spy job k scheduled refl (ground (arith, eq_iff k "")),
              ))
      ]

module _ {Input P Rest : Type 0} (backend : Backend P Rest) (config : QueueManagerConfig)
    (configs : List (QueueConfiguration Input P Rest)) where
  started-spies :
      (m : Manager backend) (r : Bool × List String × backend.State)
      → (started backend m r).1.spies ≡ m.spies
  started-spies m (true, queues, s) = refl
  started-spies m (false, queues, s) = refl

  start-spies :
      (which : Enabled) (m : Manager backend)
      → (start backend config configs (enabled which) m).1.spies ≡ m.spies
  unfolding start
  start-spies which m = elim (Bool-cases (is_started backend m)) [
    | inl up ↦ rw (up, start) refl
    | inr down ↦ elim (Bool-cases m.is_rejected) [
      | inl kept ↦ rw (down, start) (simp kept refl)
      | inr fresh ↦
          rw (down, start)
            (simp fresh (started-spies m (start_registry backend configs which m.queues m.state)))
    ]
  ]

  start_if_not_started-spies :
      (id : String) (m : Manager backend)
      → (start_if_not_started backend config configs id m).1.spies ≡ m.spies
  unfolding start_if_not_started
  start_if_not_started-spies id m = elim (Bool-cases (is_started backend m)) [
    | inl up ↦ rw (up, start_if_not_started) (start-spies (only (id ∷ [])) m)
    | inr down ↦ elim (Bool-cases config.lazy_init_enabled) [
      | inl lazy ↦ rw (down, start_if_not_started) (simp lazy (start-spies (only (id ∷ [])) m))
      | inr eager ↦ rw (down, start_if_not_started) (simp eager refl)
    ]
  ]

module _ {Input P Rest : Type 0} (backend : Backend P Rest)
    (merge : JobsOptions P Rest → JobsOptions P Rest → JobsOptions P Rest)
    (no_keys : JobsOptions P Rest) (config : QueueManagerConfig)
    (configs : List (QueueConfiguration Input P Rest)) where
  add_to_queue-IsSpied :
      (uuid queue_id : String) (c : QueueConfiguration Input P Rest) (payload : P)
      (options : Option (JobsOptions P Rest)) (m : Manager backend) {spy : Spy P}
      → lookup queue_id m.spies ≡ some spy
      → IsSpied backend queue_id payload
          (add_to_queue backend merge no_keys config configs uuid queue_id c payload options m)
  unfolding add_to_queue
  add_to_queue-IsSpied uuid queue_id c payload options m there =
      and_then-elim (IsSpied backend queue_id payload) (get_queue backend queue_id m, m) _
        (λ _.
          and_then-elim (IsSpied backend queue_id payload)
            (resolve_job_options merge no_keys config.is_test uuid c.job_options payload options, m)
            _
            (λ o.
              added-IsSpied backend queue_id payload m (backend.add_job m.state queue_id payload o)
                there)
            (λ e id h. cc))
        (λ e id h. cc)

  -- Where the manager has a spy for the queue, and `schedule` returns an id, a wait of that spy for
  -- the id, as scheduled, is answered at once, with the parsed payload.
  pub schedule-IsSpied :
      (m : Manager backend) (uuid queue_id : String) (input : Input)
      (options : Option (JobsOptions P Rest)) {c : QueueConfiguration Input P Rest} {payload : P}
      {spy : Spy P}
      → get_queue_config configs queue_id ≡ some c
      → c.parse input ≡ some payload
      → lookup queue_id m.spies ≡ some spy
      → IsSpied backend queue_id payload
          (schedule backend merge no_keys config configs uuid queue_id input options m)
  unfolding schedule
  schedule-IsSpied m uuid queue_id input options {c} {payload} known valid there =
      rw (known, schedule)
        (rw valid (
          and_then-elim (IsSpied backend queue_id payload)
            (start_if_not_started backend config configs queue_id m) _
            (λ _. add_to_queue-IsSpied uuid queue_id c payload options _ (
              ap (λ s. lookup queue_id s)
                (start_if_not_started-spies backend config configs queue_id m)
              ∙ there))
            (λ e id h. cc)))
