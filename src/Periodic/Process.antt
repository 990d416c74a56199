-- ===== src/Periodic/Process.antt =====
-- `process` of a periodic job. What its own code does and what the locks answer is given, and what the run
-- calls is a list of events.
use shared_ts_libs.Base.{
  ℕ, Bool, true, false, List, [], ◌∷◌, ◌++◌, Option, none, some, String, str_eq, if◌then◌else◌,
}
use shared_ts_libs.Periodic.Config.{JobOptions, default_lock_timeout, job_lock_name}

-- The options of a mutex that the package for locks reads.
pub record Lock : Type 0 where
  pub name : String
  pub identifier : String
  pub acquired_externally : Bool
  pub lock_timeout : ℕ

-- The package's `tryAcquire`: whether the lock is acquired; `none` is a rejection.
pub record Locks : Type 1 where
  pub State : Type 0
  pub try_acquire : Lock → State → Option Bool × State

-- What the job's own code throws, if it does: an error, or another value.
pub data Thrown : Type 0 where
  error : ℕ → Thrown
  value : ℕ → Thrown

pub data Event : Type 0 where
  skipped : Event
  transaction_starts : Event
  logs_start : Event
  works : Event
  logs_error : Thrown → Event
  reports : Thrown → Event
  stops_refresh : Event
  logs_finish : Event
  transaction_stops : Bool → Event

-- How the promise of the execution ends.
pub data Ended : Type 0 where
  resolved : Ended
  lock_rejected : Ended

pub record Execution (State : Type 0) : Type 0 where
  pub events : List Event
  pub ended : Ended
  -- `this.singleConsumerLock` afterwards
  pub lock : Option Lock
  pub state : State

abbrev pub log_if : Bool → Event → List Event
log_if true e = e ∷ []
log_if false e = []

unfoldable pub failure_events : Option Thrown → List Event
failure_events none = []
failure_events (some (error id)) = logs_error (error id) ∷ reports (error id) ∷ []
failure_events (some (value id)) = logs_error (value id) ∷ []

abbrev pub is_successful : Option Thrown → Bool
is_successful none = true
is_successful (some e) = false

-- The job, from the start of its transaction to the end of the `catch`.
unfoldable pub work_events : JobOptions → Option Thrown → List Event
unfolding failure_events
work_events o thrown =
    transaction_starts ∷ (log_if o.should_log_execution logs_start ++ works ∷ failure_events thrown)

unfoldable pub finish_events : JobOptions → Option Thrown → List Event
finish_events o thrown =
    log_if o.should_log_execution logs_finish ++ transaction_stops (is_successful thrown) ∷ []

-- `lockTimeoutAfterSuccess ?? intervalInMs ?? DEFAULT_LOCK_TIMEOUT`
unfoldable pub timeout_after : JobOptions → ℕ
timeout_after o = elim o.lock_timeout_after_success [
  | some ms ↦ ms
  | none ↦ elim o.schedule.interval_in_ms [ some ms ↦ ms | none ↦ default_lock_timeout ]
]

unfoldable pub fresh_lock : JobOptions → String → Lock
fresh_lock o executor = record {
  name = job_lock_name o;
  identifier = executor;
  acquired_externally = false;
  lock_timeout = o.lock_timeout;
}

module _ (locks : Locks) (o : JobOptions) where
  open locks use {State, try_acquire}

  -- The second attempt, for a lock that this instance may have already.
  unfoldable pub acquire_again : Lock → Option Bool × State → Option (Option Lock) × State
  acquire_again lock (none, s) = (none, s)
  acquire_again lock (some true, s) = (some (some lock), s)
  acquire_again lock (some false, s) = (some none, s)

  unfoldable pub acquire_fresh : Lock → Option Bool × State → Option (Option Lock) × State
  unfolding acquire_again
  acquire_fresh lock (none, s) = (none, s)
  acquire_fresh lock (some true, s) = (some (some lock), s)
  acquire_fresh lock (some false, s) =
      if str_eq lock.identifier ""
      then (some none, s)
      else let own = record lock { acquired_externally = true } in
        acquire_again own (try_acquire own s)

  -- The lock that is acquired, if one is; `none` is a rejection.
  unfoldable pub try_acquire_exclusive_lock : String → State → Option (Option Lock) × State
  unfolding acquire_fresh fresh_lock
  try_acquire_exclusive_lock executor s =
      let lock = fresh_lock o executor in acquire_fresh lock (try_acquire lock s)

  -- `updateLockPostExecution`: what it says of the lock counts only if it is rejected.
  abbrev pub updated_lock : Lock → Lock
  updated_lock lock = record lock { acquired_externally = true; lock_timeout = timeout_after o }

  unfoldable pub released :
      Option Thrown → List Event → Lock → Option Bool × State → Execution State
  unfolding finish_events
  released thrown before lock (none, s) = record {
    events = before;
    ended = lock_rejected;
    lock = some lock;
    state = s;
  }
  released thrown before lock (some acquired, s) = record {
    events = before ++ stops_refresh ∷ finish_events o thrown;
    ended = resolved;
    lock = some lock;
    state = s;
  }

  -- The work and the `finally` after it, with the lock that is held or with none.
  unfoldable pub execute : Option Thrown → Option Lock → State → Execution State
  unfolding work_events finish_events released timeout_after
  execute thrown none s = record {
    events = work_events o thrown ++ finish_events o thrown;
    ended = resolved;
    lock = none;
    state = s;
  }
  execute thrown (some lock) s =
      released thrown (work_events o thrown) lock (try_acquire (updated_lock lock) s)

  -- What follows the answer of the locks. A rejection leaves the earlier lock in its place.
  unfoldable pub with_lock :
      Option Thrown → Option Lock → Option (Option Lock) × State → Execution State
  unfolding execute
  with_lock thrown earlier (none, s) = record {
    events = [];
    ended = lock_rejected;
    lock = earlier;
    state = s;
  }
  with_lock thrown earlier (some none, s) = record {
    events = skipped ∷ [];
    ended = resolved;
    lock = none;
    state = s;
  }
  with_lock thrown earlier (some (some lock), s) = execute thrown (some lock) s

  -- An execution, with the lock that the job has from an earlier one.
  unfoldable pub process : Option Thrown → String → Option Lock → State → Execution State
  unfolding with_lock execute try_acquire_exclusive_lock
  process thrown executor earlier s =
      if o.enabled
      then with_lock thrown earlier (try_acquire_exclusive_lock executor s)
      else execute thrown earlier s
