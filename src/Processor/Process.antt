-- ===== src/Processor/Process.antt =====
-- `processInternal` of AbstractBackgroundJobProcessorNew.ts, with the calls of its monitor.
use shared_ts_libs.Base.{
  ℕ, ◌+◌, Bool, true, false, List, [], ◌∷◌, ◌++◌, Option, none, some, String, if◌then◌else◌,
}
use shared_ts_libs.Processor.Failures.{Thrown, error, is_bullmq_control_flow_error}

pub data BarrierResult : Type 0 where
  passes : BarrierResult
  holds : (delay_amount_in_ms : ℕ) → BarrierResult
  barrier_throws : Thrown → BarrierResult

pub data Attempt (R : Type 0) : Type 0 where
  returns : R → Attempt R
  throws : Thrown → Attempt R

-- What the code that a run calls answers; `none` for `barrier` is no barrier, for the other calls
-- that they resolve.
pub record Answers (D R : Type 0) : Type 0 where
  pub is_valid : D → Bool
  pub zod_message : String
  pub delayed_message : String
  pub barrier : Option BarrierResult
  pub move_to_delayed : Option Thrown
  pub process : D → Attempt R
  pub update_progress : Option Thrown

pub data Event : Type 0 where
  -- `jobStart` and `jobEnd`
  transaction_starts : Event
  transaction_stops : (was_successful : Bool) → Event
  barrier_called : Event
  moved_to_delayed : (timestamp : ℕ) → Event
  process_called : Event
  progress_updated : Event
  -- `jobAttemptError`
  logs_deferral logs_error : Thrown → Event

abbrev pub delayed_error : (message : String) → Thrown
delayed_error message = error "DelayedError" message false

abbrev pub zod_unrecoverable_error : (message : String) → Thrown
zod_unrecoverable_error message = error "UnrecoverableError" message false

unfoldable pub job_attempt_error : Thrown → Event
job_attempt_error e = if is_bullmq_control_flow_error e then logs_deferral e else logs_error e

module _ {D R : Type 0} (answers : Answers D R) where
  abbrev pub progress : R → Option Thrown → Attempt R
  progress r none = returns r
  progress r (some e) = throws e

  abbrev pub run_process : Attempt R → Attempt R × List Event
  run_process (throws e) = (throws e, process_called ∷ [])
  run_process (returns r) =
      (progress r answers.update_progress, process_called ∷ progress_updated ∷ [])

  abbrev pub delay_result : Option Thrown → Attempt R
  delay_result none = throws (delayed_error answers.delayed_message)
  delay_result (some e) = throws e

  abbrev pub after_barrier : (now : ℕ) → D → BarrierResult → Attempt R × List Event
  after_barrier now payload passes = run_process (answers.process payload)
  after_barrier now payload (holds delay) =
      (delay_result answers.move_to_delayed, moved_to_delayed (now + delay) ∷ [])
  after_barrier now payload (barrier_throws e) = (throws e, [])

  abbrev pub ask_barrier : (now : ℕ) → D → Option BarrierResult → Attempt R × List Event
  ask_barrier now payload none = run_process (answers.process payload)
  ask_barrier now payload (some b) =
      ((after_barrier now payload b).0, barrier_called ∷ (after_barrier now payload b).1)

  -- The body of the `try`.
  abbrev pub attempt : (now : ℕ) → D → Attempt R × List Event
  attempt now payload = elim (answers.is_valid payload) [
    | false ↦ (throws (zod_unrecoverable_error answers.zod_message), [])
    | true ↦ ask_barrier now payload answers.barrier
  ]

  -- The `catch` and the `finally`.
  abbrev pub finish : Attempt R × List Event → Attempt R × List Event
  finish (returns r, events) =
      (returns r, transaction_starts ∷ (events ++ transaction_stops true ∷ []))
  finish (throws e, events) = (
    throws e,
    transaction_starts
        ∷ (events ++ job_attempt_error e ∷ transaction_stops (is_bullmq_control_flow_error e) ∷ []),
  )

  unfoldable pub process_internal : (now : ℕ) → D → Attempt R × List Event
  unfolding job_attempt_error
  process_internal now payload = finish (attempt now payload)
