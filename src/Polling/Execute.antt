-- ===== src/Polling/Execute.antt =====
-- `execute` of ExponentialBackoffStrategy.ts, with `checkAborted`, `waitBeforeRetry` and the `delay`
-- of utils/delay.ts. Every hook is present, and its calls are the events of a run, beside the polls.
pub mod Attempts
pub mod Spurious
use shared_ts_libs.Base.{
  ℕ, zero, suc, ◌-◌, Bool, true, false, not, ◌||◌, ◌&&◌, List, [], ◌∷◌, ◌++◌, ltb, if◌then◌else◌,
}
use shared_ts_libs.Number.{Numbers, zero_num}
use shared_ts_libs.Polling.Backoff.{ExponentialBackoffConfig, calculate_delay}

-- What `pollFn` comes to.
pub data PollResult (T E : Type 0) : Type 0 where
  complete : T → PollResult T E
  incomplete : PollResult T E
  fails : E → PollResult T E

pub data FailureCause : Type 0 where
  timeout cancelled : FailureCause

pub data Event (n : Numbers) : Type 0 where
  polled : (attempt : ℕ) → Event n
  on_attempt : (attempt : ℕ) → (is_complete : Bool) → Event n
  on_wait : (attempt : ℕ) → (wait_ms : n.Num) → Event n
  on_success : (total_attempts : ℕ) → Event n
  on_failure : FailureCause → (attempts_made : ℕ) → Event n

-- A value, a PollingError, or the error that `pollFn` has thrown.
pub data Outcome (T E : Type 0) : Type 0 where
  succeeds : T → Outcome T E
  polling_error : FailureCause → (attempts_made : ℕ) → Outcome T E
  rejects : E → Outcome T E

pub record Run (n : Numbers) (T E : Type 0) : Type 0 where
  pub outcome : Outcome T E
  pub events : List (Event n)

-- What the outside does: the polls, `signal?.aborted` at the first check (0) and at the start of an
-- attempt, whether the signal is aborted before the delay after an attempt is over, and
-- Math.random().
pub record Environment (n : Numbers) (T E : Type 0) : Type 0 where
  pub poll : ℕ → PollResult T E
  pub aborted : ℕ → Bool
  pub aborted_in_delay : ℕ → Bool
  pub random : ℕ → n.Num

-- What an attempt comes to: the run is over, or the loop continues.
pub data Step (n : Numbers) (T E : Type 0) : Type 0 where
  ends : Outcome T E → List (Event n) → Step n T E
  continues : List (Event n) → Step n T E

module _ {n : Numbers} {T E : Type 0} where
  abbrev pub fail : FailureCause → ℕ → List (Event n) → Step n T E
  fail cause made es = ends (polling_error cause made) (es ++ on_failure cause made ∷ [])

  abbrev pub before : List (Event n) → Run n T E → Run n T E
  before es run = record { outcome = run.outcome; events = es ++ run.events }

  -- What is left of the run is looked at only if the loop continues.
  abbrev pub proceed : Step n T E → Run n T E → Run n T E
  proceed (ends outcome es) rest = record { outcome = outcome; events = es }
  proceed (continues es) rest = before es rest

-- `delay` rejects a time that is not finite or negative, and at an aborted signal.
unfoldable pub delay_rejects : (n : Numbers) → n.Num → Bool → Bool
delay_rejects n ms aborted = not (n.is_finite ms) || n.lt ms (zero_num n) || aborted

module _ {n : Numbers} {T E : Type 0} (config : ExponentialBackoffConfig n) (max_attempts : ℕ)
    (env : Environment n T E) where
  -- Any rejection of the delay is reported as a cancellation.
  unfoldable pub wait_before_retry : ℕ → List (Event n) → Step n T E
  unfolding delay_rejects
  wait_before_retry attempt es =
      let ms = calculate_delay n config (env.random attempt) (attempt - 1) in
      if delay_rejects n ms (env.aborted_in_delay attempt)
      then fail cancelled attempt (es ++ on_wait attempt ms ∷ [])
      else continues (es ++ on_wait attempt ms ∷ [])

  unfoldable pub after_poll : ℕ → PollResult T E → Step n T E
  unfolding wait_before_retry
  after_poll attempt (fails e) = ends (rejects e) (polled attempt ∷ [])
  after_poll attempt (complete v) =
      ends (succeeds v) (polled attempt ∷ on_attempt attempt true ∷ on_success attempt ∷ [])
  after_poll attempt incomplete =
      if ltb attempt max_attempts
      then wait_before_retry attempt (polled attempt ∷ on_attempt attempt false ∷ [])
      else continues (polled attempt ∷ on_attempt attempt false ∷ [])

  unfoldable pub attempt_step : ℕ → Step n T E
  unfolding after_poll
  attempt_step attempt =
      if env.aborted attempt
      then fail cancelled (attempt - 1) []
      else after_poll attempt (env.poll attempt)

  -- The `for` loop with `left` rounds to go, and the timeout behind it.
  unfoldable pub loop : ℕ → ℕ → Run n T E
  unfolding attempt_step
  loop zero attempt = record {
    outcome = polling_error timeout max_attempts;
    events = on_failure timeout max_attempts ∷ [];
  }
  loop (suc left) attempt =
      let rest = loop left (suc attempt) in proceed (attempt_step attempt) rest

  unfoldable pub execute : Run n T E
  unfolding loop
  execute = if env.aborted 0 then proceed (fail cancelled 0 []) (loop 0 1) else loop max_attempts 1
