-- ===== src/Periodic/Tests.antt =====
-- Two consumers of one job, over a store with a single lock.
use shared_ts_libs.Base.{
  ◌≤◌, Bool, true, false, ◌&&◌, ◌≡◌, ◌≢◌, refl, arith, [], ◌∷◌, Option, none, some, String, str_eq,
  eq_iff, if◌then◌else◌, inl, inr, ◌⊎◌,
}
use shared_ts_libs.Periodic.Config.{
  BackgroundJobConfiguration, JobOptions, missing_redis, ok, throws, simple_interval, with_defaults,
  new_periodic_job, register,
}
use shared_ts_libs.Periodic.Process.{
  Lock, Locks, error, transaction_starts, works, logs_error, reports, stops_refresh,
  transaction_stops, skipped, process, execute, with_lock, released, work_events, finish_events,
  failure_events, timeout_after, try_acquire_exclusive_lock, acquire_again, acquire_fresh,
  fresh_lock,
}
use shared_ts_libs.Periodic.Runs.{HasNotWorked, count_works}
use shared_ts_libs.Periodic.Exclusive.{IsLawful, held, process-IsExclusive}

-- The state is the holder of the lock.
abbrev acquire : Lock → Option String → Option Bool × Option String
acquire l none = (some true, some l.identifier)
acquire l (some h) =
    if l.acquired_externally && str_eq h l.identifier
    then (some true, some h)
    else (some false, some h)

abbrev store : Locks
store = record { State = Option String; try_acquire = acquire }

abbrev holder : Option String → String → Option String
holder s name = s

acquire-acquired :
    (l : Lock) (s s' : Option String)
    → acquire l s ≡ (some true, s')
    → ((s ≡ none) ⊎ ((l.acquired_externally ≡ true) × (s ≡ some l.identifier)))
      × (s' ≡ some l.identifier)
acquire-acquired l none s' e = (inl refl, ground (arith, e))
acquire-acquired l (some h) s' e = (
  inr (ground (arith, e, eq_iff h l.identifier), ground (arith, e, eq_iff h l.identifier)),
  ground (arith, e, eq_iff h l.identifier),
)

acquire-refused : (l : Lock) (s s' : Option String) → acquire l s ≡ (some false, s') → s' ≡ s
acquire-refused l none s' e = absurd (ground (arith, e))
acquire-refused l (some h) s' e = ground (arith, e)

acquire-answers : (l : Lock) (s s' : Option String) → ¬ (acquire l s ≡ (none, s'))
acquire-answers l none s' e = ground (arith, e)
acquire-answers l (some h) s' e = ground (arith, e)

store-IsLawful : IsLawful store holder
store-IsLawful = record {
  acquired = acquire-acquired;
  refused = acquire-refused;
  rejected = λ l s s' e. absurd (acquire-answers l s s' e);
}

abbrev configuration : BackgroundJobConfiguration
configuration = record {
  job_id = "cleanup";
  schedule = record { interval_in_ms = some 1000; cron = none };
  single_consumer_mode = some (record {
    enabled = true;
    exclusive_lock_suffix = none;
    lock_timeout = none;
    lock_timeout_after_success = none;
  });
  should_log_execution = none;
  run_immediately = none;
}

abbrev options : JobOptions
options = with_defaults configuration

periodic : Unit {0}
unfolding new_periodic_job with_defaults register process execute with_lock released work_events
    finish_events failure_events timeout_after try_acquire_exclusive_lock acquire_again
    acquire_fresh fresh_lock
periodic = tt

periodic_tests :
    (new_periodic_job false configuration ≡ throws missing_redis)
    × (options.lock_timeout ≡ 2000)
    × (register options ≡ ok (simple_interval "cleanup" 1000 true))
    × ((process store options (some (error 7)) "a" none none).events
        ≡ transaction_starts
          ∷ works
          ∷ logs_error (error 7)
          ∷ reports (error 7)
          ∷ stops_refresh
          ∷ transaction_stops false
          ∷ [])
    × ((process store options none "a" none (some "b")).events ≡ skipped ∷ [])
    × ((process store options none "a" none (some "a")).state ≡ some "a")
unfolding periodic
periodic_tests = (refl, refl, refl, refl, refl, refl)

worked : 1 ≤ count_works (process store options none "a" none none).events
unfolding periodic
worked = omega arith

a_ne_b : ◌≢◌ {A = String} "a" "b"
a_ne_b h = ground (arith, eq_iff "a" "b", h)

single_consumer : options.enabled ≡ true
unfolding periodic
single_consumer = refl

process-IsExclusive_example :
    HasNotWorked
      (process store options none "b" none (process store options none "a" none none).state).events
    × (held store holder store-IsLawful options
          (process store options none "b" none
            (process store options none "a" none none).state).state
        ≡ some "a")
process-IsExclusive_example =
    process-IsExclusive store holder store-IsLawful options single_consumer none none "a" "b" none
      none none a_ne_b worked
