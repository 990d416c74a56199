-- ===== src/Processor/Tests.antt =====
-- Runs of jobs: one that is held by its barrier, one that fails for good, one that completes.
use shared_ts_libs.Base.{ℕ, true, false, not, ◌≡◌, refl, List, [], ◌∷◌, none, some, String, str_eq}
use shared_ts_libs.JobSpy.{empty_spy}
use shared_ts_libs.Queues.Options.{is_job_removed_on_complete, keep_jobs}
use shared_ts_libs.Processor.Failures.{
  Thrown, error, is_bullmq_control_flow_error, is_unrecoverable_job_error,
  is_muted_unrecoverable_job_error, is_stalled_job_error, is_job_missing_error,
}
use shared_ts_libs.Processor.Process.{
  holds, returns, throws, Answers, transaction_starts, transaction_stops, barrier_called,
  moved_to_delayed, process_called, progress_updated, logs_deferral, logs_error, delayed_error,
  zod_unrecoverable_error, job_attempt_error, process_internal,
}
use shared_ts_libs.Processor.Hooks.{
  QueuedJob, Watch, job_reports, purge_job_data, internal_on_success, is_final, internal_on_failed,
}
use shared_ts_libs.Processor.Lifecycle.{
  StartError, rejects, not_unique, WorkerAnswers, new_processor, start_processor, dispose_processor,
  answer_again, IsStarted, start_processor-IsStarted,
}
use shared_ts_libs.Processor.Traced.{IsTraced, process_internal-IsTraced}
use shared_ts_libs.Processor.Final.{
  IsHandled, IsCompleted, internal_on_failed-IsHandled, internal_on_success-IsCompleted,
}

processed : Unit {0}
unfolding is_bullmq_control_flow_error is_unrecoverable_job_error is_muted_unrecoverable_job_error
    is_stalled_job_error is_job_missing_error job_attempt_error process_internal
    is_job_removed_on_complete job_reports purge_job_data internal_on_success is_final
    internal_on_failed
processed = tt

abbrev open_answers : Answers String ℕ
open_answers = record {
  is_valid = λ payload. not (str_eq payload "");
  zod_message = "invalid";
  delayed_message = "later";
  barrier = none;
  move_to_delayed = none;
  process = λ payload. returns 7;
  update_progress = none;
}

abbrev held_answers : Answers String ℕ
held_answers = record open_answers { barrier = some (holds 500) }

returned_test : process_internal open_answers 1000 "data" ≡ (
  returns 7,
  transaction_starts ∷ process_called ∷ progress_updated ∷ transaction_stops true ∷ [],
)
unfolding processed
returned_test = refl

held_test : process_internal held_answers 1000 "data" ≡ (
  throws (delayed_error "later"),
  transaction_starts
      ∷ barrier_called
      ∷ moved_to_delayed 1500
      ∷ logs_deferral (delayed_error "later")
      ∷ transaction_stops true
      ∷ [],
)
unfolding processed
held_test = refl

invalid_test : process_internal held_answers 1000 "" ≡ (
  throws (zod_unrecoverable_error "invalid"),
  transaction_starts
      ∷ logs_error (zod_unrecoverable_error "invalid")
      ∷ transaction_stops false
      ∷ [],
)
unfolding processed
invalid_test = refl

process_internal-IsTraced_example :
    IsTraced held_answers "data" (process_internal held_answers 1000 "data")
process_internal-IsTraced_example = process_internal-IsTraced held_answers "data" 1000

abbrev job : QueuedJob ℕ String
job = record {
  id = some "job-1";
  content = record { metadata = 5; payload = some "secret" };
  attempts = some 3;
  attempts_made = 1;
  remove_on_complete = some (keep_jobs none (some 50));
}

abbrev watch : Watch ℕ String
watch = record {
  job = job;
  has_logs = true;
  spy = some empty_spy;
  reports = [];
  success_hooks = [];
  failure_hooks = [];
}

abbrev stalled : Thrown
stalled = error "Error" "job stalled more than allowable limit" false

abbrev missing : Thrown
missing = error "Error" "Missing key for job 1. updateData" false

failed_test : (internal_on_failed none stalled watch).failure_hooks ≡ job.content ∷ []
unfolding processed
failed_test = refl

muted_test : (internal_on_failed none (error "UnrecoverableError" "stop" true) watch).reports ≡ []
unfolding processed
muted_test = refl

purged_test : (internal_on_success none true none (some missing) watch).job.content.payload ≡ none
unfolding processed
purged_test = refl

internal_on_failed-IsHandled_example :
    IsHandled (some missing) stalled watch (internal_on_failed (some missing) stalled watch)
internal_on_failed-IsHandled_example = internal_on_failed-IsHandled (some missing) stalled watch

internal_on_success-IsCompleted_example :
    IsCompleted none true none
      (some missing)
      watch
      (internal_on_success none true none (some missing) watch)
internal_on_success-IsCompleted_example =
    internal_on_success-IsCompleted none true none (some missing) watch

abbrev well : WorkerAnswers
well = record { is_built = true; is_ready = true; is_test = false }

second_test :
    (start_processor "email" well new_processor ("sms" ∷ "email" ∷ [])).0 ≡ rejects not_unique
unfolding start_processor
second_test = refl

disposed_test :
    dispose_processor "email"
      (start_processor "email" well new_processor ("sms" ∷ [])).1
      (start_processor "email" well new_processor ("sms" ∷ [])).2
    ≡ (new_processor, "sms" ∷ [])
unfolding start_processor dispose_processor
disposed_test = refl

start_processor-IsStarted_example :
    IsStarted "email" ("email" ∷ []) (start_processor "email" well new_processor ("email" ∷ []))
    × ((e : StartError) (again : WorkerAnswers) (between later : List String)
        → (start_processor "email" well new_processor ("email" ∷ [])).0 ≡ rejects e
        → (start_processor "email" again
              (dispose_processor "email"
                (start_processor "email" well new_processor ("email" ∷ [])).1
                between).0
              later
            ≡ (
              rejects e,
              (dispose_processor "email"
                  (start_processor "email" well new_processor ("email" ∷ [])).1
                  between).0,
              later,
            ))
          × (start_processor "email" again
                (start_processor "email" well new_processor ("email" ∷ [])).1
                later
              ≡ (
                answer_again e,
                (start_processor "email" well new_processor ("email" ∷ [])).1,
                later,
              )))
start_processor-IsStarted_example = start_processor-IsStarted "email" well ("email" ∷ [])
