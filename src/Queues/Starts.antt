-- ===== src/Queues/Starts.antt =====
-- Which queues a manager has built, and what that means for the calls that follow.
use shared_ts_libs.Base.{
  Bool, true, false, ◌≡◌, refl, sym, ◌∙◌, List, [], ◌∷◌, Option, some, String, contains, Bool-cases,
  inl, inr,
}
use mathlib.Core.Path.{subst}
use shared_ts_libs.Queues.Options.{
  start_rejected, not_instantiated, Outcome, ok, throws, JobsOptions,
}
use shared_ts_libs.Queues.Registry.{
  QueueConfiguration, Backend, Enabled, only, start_registry, get_queue_config,
}
use shared_ts_libs.Queues.Manager.{
  QueueManagerConfig, Manager, enabled, is_started, start, started, dispose, start_if_not_started,
  get_queue, add_to_queue, schedule,
}

module _ {Input P Rest : Type 0} (backend : Backend P Rest)
    (merge : JobsOptions P Rest → JobsOptions P Rest → JobsOptions P Rest)
    (no_keys : JobsOptions P Rest) (config : QueueManagerConfig)
    (configs : List (QueueConfiguration Input P Rest)) where
  -- The section's operations, at its arguments.
  abbrev pub schedules :
      String
      → String
      → Input
      → Option (JobsOptions P Rest)
      → Manager backend
      → Outcome String × Manager backend
  schedules = schedule backend merge no_keys config configs

  abbrev pub starts : Enabled → Manager backend → Outcome (Unit {0}) × Manager backend
  starts which m = start backend config configs (enabled which) m

  pub start-started :
      (which : Enabled) (m : Manager backend)
      → is_started backend m ≡ true
      → starts which m ≡ (ok tt, m)
  unfolding start
  start-started which m h = rw (h, start) refl

  start-start_rejected :
      (which : Enabled) (m : Manager backend)
      → is_started backend m ≡ false
      → m.is_rejected ≡ true
      → starts which m ≡ (throws start_rejected, m)
  unfolding start
  start-start_rejected which m h r = rw (h, start) (simp r)

  pub start-started_once :
      (which : Enabled) (m : Manager backend)
      → is_started backend m ≡ false
      → m.is_rejected ≡ false
      → starts which m ≡ started backend m (start_registry backend configs which m.queues m.state)
  unfolding start
  start-started_once which m h r = rw (h, start) (simp r)

  pub start_if_not_started-started :
      (id : String) (m : Manager backend)
      → is_started backend m ≡ true
      → start_if_not_started backend config configs id m ≡ (ok tt, m)
  unfolding start_if_not_started
  start_if_not_started-started id m h =
      rw (h, start_if_not_started) (start-started (only (id ∷ [])) m h)

  -- On a manager that has started, scheduling a valid payload on a queue that has a configuration
  -- and was not built throws, and changes nothing, also where lazy initialization is enabled.
  pub schedule-not_instantiated :
      (m : Manager backend) (uuid id : String) (input : Input)
      (options : Option (JobsOptions P Rest)) {c : QueueConfiguration Input P Rest} {payload : P}
      → is_started backend m ≡ true
      → contains id m.queues ≡ false
      → get_queue_config configs id ≡ some c
      → c.parse input ≡ some payload
      → schedules uuid id input options m ≡ (throws not_instantiated, m)
  unfolding schedule add_to_queue get_queue
  schedule-not_instantiated m uuid id input options is_up lacking known valid =
      rw (known, schedule)
        (rw valid (
          rw (start_if_not_started-started id m is_up)
            (rw (lacking, add_to_queue, get_queue) refl)))

  started-is_rejected :
      (m : Manager backend) (r : Bool × List String × backend.State)
      → (started backend m r).0 ≡ throws start_rejected
      → (started backend m r).1.is_rejected ≡ true
  started-is_rejected m (true, queues, s) h = cc
  started-is_rejected m (false, queues, s) h = refl

  -- What a rejected start leaves: the promise is kept.
  start-is_rejected :
      (which : Enabled) (m : Manager backend)
      → (starts which m).0 ≡ throws start_rejected
      → (starts which m).1.is_rejected ≡ true
  start-is_rejected which m =
      let Claim = λ (r : Outcome (Unit {0}) × Manager backend).
        r.0 ≡ throws start_rejected → r.1.is_rejected ≡ true in
      elim (Bool-cases (is_started backend m)) [
        | inl up ↦ subst Claim (sym (start-started which m up)) (λ h. cc)
        | inr down ↦ elim (Bool-cases m.is_rejected) [
          | inl kept ↦ subst Claim (sym (start-start_rejected which m down kept)) (λ h. kept)
          | inr fresh ↦
              subst Claim (sym (start-started_once which m down fresh))
                (started-is_rejected m (start_registry backend configs which m.queues m.state))
        ]
      ]

  dispose-is_started :
      (m : Manager backend) → is_started backend (dispose backend config configs m) ≡ false
  unfolding dispose
  dispose-is_started m = elim (Bool-cases (is_started backend m)) [
    | inl up ↦ rw (up, dispose) refl
    | inr down ↦ rw (down, dispose) down
  ]

  dispose-is_rejected :
      (m : Manager backend) → (dispose backend config configs m).is_rejected ≡ m.is_rejected
  unfolding dispose
  dispose-is_rejected m = elim (Bool-cases (is_started backend m)) [
    | inl up ↦ rw (up, dispose) refl
    | inr down ↦ rw (down, dispose) refl
  ]

  -- Once a start was rejected, the manager never starts again: after `dispose` every start throws
  -- again and builds nothing.
  pub start-dispose :
      (which again : Enabled) (m : Manager backend)
      → (starts which m).0 ≡ throws start_rejected
      → starts again (dispose backend config configs (starts which m).1)
        ≡ (throws start_rejected, dispose backend config configs (starts which m).1)
  start-dispose which again m h =
      let left = (starts which m).1 in
      start-start_rejected again (dispose backend config configs left) (dispose-is_started left)
        (dispose-is_rejected left ∙ start-is_rejected which m h)
