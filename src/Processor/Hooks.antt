-- ===== src/Processor/Hooks.antt =====
-- What follows a job that is completed or has failed: `internalOnSuccess`, `internalOnFailed`,
-- `internalOnHook` and `purgeJobData` of AbstractBackgroundJobProcessorNew.ts.
use shared_ts_libs.Base.{
  ℕ, ◌==◌, Bool, true, false, ◌||◌, List, [], ◌∷◌, ◌++◌, Option, none, some, String, if◌then◌else◌,
}
use shared_ts_libs.JobSpy.{Job, JobSpyState, Spy, completed, failed, add_job}
use shared_ts_libs.Queues.Options.{RemoveOn, is_job_removed_on_complete}
use shared_ts_libs.Processor.Failures.{
  Thrown, error, is_unrecoverable_job_error, is_muted_unrecoverable_job_error, is_stalled_job_error,
  is_job_missing_error,
}

-- The data of a job: its metadata, and the rest, which a purge takes off.
pub record JobData (M D : Type 0) : Type 0 where
  pub metadata : M
  pub payload : Option D

pub record QueuedJob (M D : Type 0) : Type 0 where
  pub id : Option String
  pub content : JobData M D
  pub attempts : Option ℕ
  pub attempts_made : ℕ
  pub remove_on_complete : Option RemoveOn

pub data Report : Type 0 where
  -- of the error of the job, and of what a hook throws
  of_job of_hook : Thrown → Report

-- What the hooks see and change: the job in the queue and its logs, the spy, and what is reported.
pub record Watch (M D : Type 0) : Type 0 where
  pub job : QueuedJob M D
  pub has_logs : Bool
  pub spy : Option (Spy (JobData M D))
  pub reports : List Report
  -- with which data the hooks were called
  pub success_hooks : List (JobData M D)
  pub failure_hooks : List (JobData M D)

-- The errors of the two calls that are not expected.
abbrev pub unexpected : Option Thrown → List Thrown
unexpected none = []
unexpected (some e) = if is_job_missing_error e then [] else e ∷ []

abbrev pub purge_result : List Thrown → Option Thrown
purge_result [] = none
purge_result (e ∷ es) = some (error "Error" "Job data purge failed" false)

abbrev pub are_exhausted : Option ℕ → ℕ → Bool
are_exhausted none made = false
are_exhausted (some n) made = n == made

-- The error of a job is reported unless it is muted.
unfoldable pub job_reports : Thrown → List Report
job_reports e = if is_muted_unrecoverable_job_error e then [] else of_job e ∷ []

-- What a hook throws is reported.
abbrev pub hook_reports : Option Thrown → List Report
hook_reports none = []
hook_reports (some e) = of_hook e ∷ []

module _ {M D : Type 0} where
  -- `hook` is what the hook throws: it goes no further than the reports.
  abbrev pub internal_on_hook : Option Thrown → Watch M D → Watch M D
  internal_on_hook hook w = record w { reports = w.reports ++ hook_reports hook }

  abbrev pub spied_job : QueuedJob M D → Job (JobData M D)
  spied_job job = record { id = job.id; payload = job.content }

  abbrev pub added_to_spy :
      JobSpyState → QueuedJob M D → Option (Spy (JobData M D)) → Option (Spy (JobData M D))
  added_to_spy state job none = none
  added_to_spy state job (some spy) = some (add_job spy (spied_job job) state)

  -- `this._spy?.addJob(job, state)`
  abbrev pub spied : JobSpyState → Watch M D → Watch M D
  spied state w = record w { spy = added_to_spy state w.job w.spy }

  abbrev pub purged : Option Thrown → Watch M D → Watch M D
  purged none w = record w {
    job = record w.job { content = record { metadata = w.job.content.metadata; payload = none } };
  }
  purged (some e) w = w

  abbrev pub logs_cleared : Option Thrown → Watch M D → Watch M D
  logs_cleared none w = record w { has_logs = false }
  logs_cleared (some e) w = w

  -- `update` and `clear` are what `updateData` and `clearLogs` reject with.
  unfoldable pub purge_job_data :
      (update clear : Option Thrown) → Watch M D → Option Thrown × Watch M D
  purge_job_data update clear w =
      if is_job_removed_on_complete w.job.remove_on_complete then (none, w) else (
        purge_result (unexpected update ++ unexpected clear),
        logs_cleared clear (purged update w),
      )

  -- The hook, with the whole data, and the spy.
  abbrev pub completed_once : (hook : Option Thrown) → Watch M D → Watch M D
  completed_once hook w =
      spied completed
        (internal_on_hook hook (record w { success_hooks = w.success_hooks ++ w.job.content ∷ [] }))

  -- `hook` is what `onSuccess` throws; `purges` is `purgeJobDataOnSuccess`, true where it is not set.
  unfoldable pub internal_on_success :
      (hook : Option Thrown)
      → (purges : Bool) → (update clear : Option Thrown) → Watch M D
      → Watch M D
  unfolding purge_job_data
  internal_on_success hook purges update clear w =
      let after = purge_job_data update clear (completed_once hook w) in
      elim purges [ true ↦ internal_on_hook after.0 after.1 | false ↦ completed_once hook w ]

  unfoldable pub is_final : QueuedJob M D → Thrown → Bool
  is_final job e =
      is_unrecoverable_job_error e
      || is_stalled_job_error e
      || are_exhausted job.attempts job.attempts_made

  abbrev pub report_failure : Thrown → Watch M D → Watch M D
  report_failure e w = record w { reports = w.reports ++ job_reports e }

  -- The hook and the spy.
  abbrev pub failed_once : (hook : Option Thrown) → Watch M D → Watch M D
  failed_once hook w =
      spied failed
        (internal_on_hook hook (record w { failure_hooks = w.failure_hooks ++ w.job.content ∷ [] }))

  -- `hook` is what `onFailed` throws.
  unfoldable pub internal_on_failed : (hook : Option Thrown) → Thrown → Watch M D → Watch M D
  unfolding is_final job_reports
  internal_on_failed hook e w = elim (is_final w.job e) [
    | true ↦ failed_once hook (report_failure e w)
    | false ↦ report_failure e w
  ]
