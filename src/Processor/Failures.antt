-- ===== src/Processor/Failures.antt =====
-- errors/utils.ts: which failures are final, muted, or no failures at all.
use shared_ts_libs.Base.{Bool, false, ◌&&◌, [], ◌∷◌, String, str_eq, codes, starts_with, contains}

-- What a job throws: an error, with whether it carries the symbol of MutedUnrecoverableError, or
-- another value.
pub data Thrown : Type 0 where
  error : (name message : String) → (has_muted_symbol : Bool) → Thrown
  value : Thrown

unfoldable pub is_unrecoverable_job_error : Thrown → Bool
is_unrecoverable_job_error (error name message muted) = str_eq name "UnrecoverableError"
is_unrecoverable_job_error value = false

unfoldable pub is_muted_unrecoverable_job_error : Thrown → Bool
unfolding is_unrecoverable_job_error
is_muted_unrecoverable_job_error (error name message muted) =
    is_unrecoverable_job_error (error name message muted) && muted
is_muted_unrecoverable_job_error value = false

unfoldable pub is_stalled_job_error : Thrown → Bool
is_stalled_job_error (error name message muted) =
    str_eq message "job stalled more than allowable limit"
is_stalled_job_error value = false

unfoldable pub is_job_missing_error : Thrown → Bool
is_job_missing_error (error name message muted) =
    starts_with (codes "Missing key for job") (codes message)
is_job_missing_error value = false

unfoldable pub is_bullmq_control_flow_error : Thrown → Bool
is_bullmq_control_flow_error (error name message muted) =
    contains name ("DelayedError" ∷ "WaitingChildrenError" ∷ "RateLimitError" ∷ [])
is_bullmq_control_flow_error value = false
