-- ===== src/Processor/Final.antt =====
-- What is left once a job is completed or has failed.
use shared_ts_libs.Base.{
  Bool, true, false, not, ◌&&◌, ◌≡◌, ◌≢◌, refl, sym, ap, ◌∙◌, arith, [], ◌∷◌, ◌++◌, append_assoc,
  append-nil, Option, none, some, String, Bool-cases, inl, inr, if◌then◌else◌,
}
use shared_ts_libs.JobSpy.{
  Spy, JobSpyState, completed, failed, at_once, wait_for_job_with_id, add_job,
}
use shared_ts_libs.JobSpy.Pending.{wait_for_job_with_id-add_job}
use shared_ts_libs.Queues.Options.{is_job_removed_on_complete}
use shared_ts_libs.Processor.Failures.{
  Thrown, error, value, is_muted_unrecoverable_job_error, is_job_missing_error,
}
use shared_ts_libs.Processor.Hooks.{
  JobData, QueuedJob, of_job, Watch, job_reports, hook_reports, completed_once, spied_job,
  added_to_spy, unexpected, purged, logs_cleared, purge_result, purge_job_data, internal_on_success,
  is_final, internal_on_failed,
}

-- What `updateData` or `clearLogs` answers on a job that is still there, or is no longer.
abbrev pub is_expected : Option Thrown → Bool
is_expected none = true
is_expected (some e) = is_job_missing_error e

abbrev pub is_resolved : Option Thrown → Bool
is_resolved none = true
is_resolved (some e) = false

unexpected-is_expected : (r : Option Thrown) → is_expected r ≡ true → unexpected r ≡ []
unexpected-is_expected none h = refl
unexpected-is_expected (some e) h = rw (h, unexpected) refl

module _ {M D : Type 0} where
  -- A wait of the spy for the job is answered at once, with the data that the job had.
  abbrev pub IsSpied : JobSpyState → QueuedJob M D → Option (Spy (JobData M D)) → Type 0
  IsSpied state job spied =
      (id : String)
      → job.id ≡ some id
      → id ≢ ""
      → (spy : Spy (JobData M D)) × (spied ≡ some spy)
        × (wait_for_job_with_id spy (some id) state ≡ (at_once (spied_job job), spy))

  added_to_spy-IsSpied :
      (state : JobSpyState) (job : QueuedJob M D) {spied : Option (Spy (JobData M D))}
      {spy : Spy (JobData M D)}
      → spied ≡ some spy
      → IsSpied state job (added_to_spy state job spied)
  added_to_spy-IsSpied state job {spied} {spy} there id named full = (
    add_job spy (spied_job job) state,
    rw (there, added_to_spy) refl,
    wait_for_job_with_id-add_job spy (spied_job job) id state named full,
  )

  pub record IsHandled (hook : Option Thrown) (e : Thrown) (w left : Watch M D) : Type 0 where
    pub hooks :
        left.failure_hooks
        ≡ w.failure_hooks ++ (if is_final w.job e then w.job.content ∷ [] else [])
    pub reported :
        left.reports
        ≡ w.reports
          ++ ((if is_muted_unrecoverable_job_error e then [] else of_job e ∷ [])
              ++ (if is_final w.job e then hook_reports hook else []))
    pub spied :
        {spy : Spy (JobData M D)}
        → w.spy ≡ some spy
        → is_final w.job e ≡ true
        → IsSpied failed w.job left.spy
    pub unspied : is_final w.job e ≡ false → left.spy ≡ w.spy
    pub muted : is_muted_unrecoverable_job_error e ≡ true → is_final w.job e ≡ true
    pub kept : left.job ≡ w.job

  muted-is_final :
      (job : QueuedJob M D) (e : Thrown)
      → is_muted_unrecoverable_job_error e ≡ true
      → is_final job e ≡ true
  unfolding is_muted_unrecoverable_job_error is_final
  muted-is_final job (error name message muted) h = ground arith
  muted-is_final job value h = ground arith

  -- A job's failure is reported unless it is muted, in which case it is final; exactly on a final
  -- failure the hook is called, once and with the whole data, what it throws is reported, and, where
  -- there is a spy and the job has an id that is not empty, a wait of the spy for the failed job is
  -- answered. The job in the queue is left alone.
  pub internal_on_failed-IsHandled :
      (hook : Option Thrown) (e : Thrown) (w : Watch M D)
      → IsHandled hook e w (internal_on_failed hook e w)
  unfolding internal_on_failed job_reports
  internal_on_failed-IsHandled hook e w = elim (Bool-cases (is_final w.job e)) [
    | inl f ↦
        rw (f, internal_on_failed)
          (record {
            hooks = rw f refl;
            reported = rw f (append_assoc w.reports (job_reports e) (hook_reports hook));
            spied = λ there _. added_to_spy-IsSpied failed w.job there;
            unspied = λ h. cc;
            muted = λ _. f;
            kept = refl;
          })
    | inr f ↦
        rw (f, internal_on_failed)
          (record {
            hooks = rw f (sym (append-nil w.failure_hooks));
            reported = rw f (ap (λ r. w.reports ++ r) (sym (append-nil (job_reports e))));
            spied = λ there h. cc;
            unspied = λ _. refl;
            muted = λ m. muted-is_final w.job e m;
            kept = refl;
          })
  ]

  pub record IsCompleted (hook : Option Thrown) (purges : Bool) (update clear : Option Thrown)
      (w left : Watch M D) : Type 0 where
    pub hooks : left.success_hooks ≡ w.success_hooks ++ w.job.content ∷ []
    pub answered : {spy : Spy (JobData M D)} → w.spy ≡ some spy → IsSpied completed w.job left.spy
    pub quiet :
        is_expected update ≡ true
        → is_expected clear ≡ true
        → left.reports ≡ w.reports ++ hook_reports hook
    pub metadata_kept : left.job.content.metadata ≡ w.job.content.metadata
    pub payload_purged : left.job.content.payload ≡ (
        if (purges && not (is_job_removed_on_complete w.job.remove_on_complete))
          && is_resolved update
        then none
        else w.job.content.payload)

  purged-metadata :
      (update clear : Option Thrown) (w : Watch M D)
      → (logs_cleared clear (purged update w)).job.content.metadata ≡ w.job.content.metadata
  purged-metadata none none w = refl
  purged-metadata none (some e) w = refl
  purged-metadata (some e) none w = refl
  purged-metadata (some e) (some e') w = refl

  purged-payload :
      (update clear : Option Thrown) (w : Watch M D)
      → (logs_cleared clear (purged update w)).job.content.payload
        ≡ (if is_resolved update then none else w.job.content.payload)
  purged-payload none none w = refl
  purged-payload none (some e) w = refl
  purged-payload (some e) none w = refl
  purged-payload (some e) (some e') w = refl

  purged-rest :
      (update clear : Option Thrown) (w : Watch M D)
      → (let left = logs_cleared clear (purged update w) in
          (left.success_hooks ≡ w.success_hooks) × (left.spy ≡ w.spy) × (left.reports ≡ w.reports))
  purged-rest none none w = (refl, refl, refl)
  purged-rest none (some e) w = (refl, refl, refl)
  purged-rest (some e) none w = (refl, refl, refl)
  purged-rest (some e) (some e') w = (refl, refl, refl)

  -- However the hook and the purge end, a job that is completed calls the hook once, with the whole
  -- data, and, where there is a spy and the job has an id that is not empty, a wait of the spy for the
  -- completed job is answered with the whole data; afterwards the
  -- metadata is kept, and the rest of the data is gone exactly when a purge is wanted, the job is not
  -- removed and the update succeeds; errors that say that the job is missing are not reported.
  pub internal_on_success-IsCompleted :
      (hook : Option Thrown) (purges : Bool) (update clear : Option Thrown) (w : Watch M D)
      → IsCompleted hook purges update clear w (internal_on_success hook purges update clear w)
  unfolding internal_on_success purge_job_data
  internal_on_success-IsCompleted hook false update clear w = record {
    hooks = refl;
    answered = λ there. added_to_spy-IsSpied completed w.job there;
    quiet = λ _ _. refl;
    metadata_kept = refl;
    payload_purged = refl;
  }
  internal_on_success-IsCompleted hook true update clear w =
      elim (Bool-cases (is_job_removed_on_complete w.job.remove_on_complete)) [
        | inl removed ↦
            rw (removed, internal_on_success)
              (record {
                hooks = refl;
                answered = λ there. added_to_spy-IsSpied completed w.job there;
                quiet = λ _ _. append-nil (w.reports ++ hook_reports hook);
                metadata_kept = refl;
                payload_purged = rw removed refl;
              })
        | inr stays ↦
            let before = completed_once hook w in
            let rest = purged-rest update clear before in
            rw (stays, internal_on_success)
              (record {
                hooks = rest.0;
                answered = λ there. rw rest.1 (added_to_spy-IsSpied completed w.job there);
                quiet = λ u c.
                    ap
                      (λ r.
                        r ++ hook_reports (purge_result (unexpected update ++ unexpected clear)))
                      rest.2
                    ∙ rw (unexpected-is_expected update u, unexpected-is_expected clear c)
                        (append-nil (w.reports ++ hook_reports hook));
                metadata_kept = purged-metadata update clear before;
                payload_purged = rw stays (purged-payload update clear before);
              })
      ]
