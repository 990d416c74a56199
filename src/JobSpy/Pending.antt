-- ===== src/JobSpy/Pending.antt =====
-- Which waits a job resolves, and which stay registered.
use shared_ts_libs.Base.{
  ℕ, suc, ◌+◌, true, false, ◌≡◌, ◌≢◌, refl, arith, List, [], ◌∷◌, ◌++◌, some, String, str_eq,
  eq_refl, eq_iff, lookup-insert, All, length, ap,
}
use shared_ts_libs.JobSpy.{
  Job, JobSpyState, scheduled, failed, completed, same_state, SpyPromise, Spy, at_once,
  get_job_result_key, remove_at, is_met, met_indexes, met_promises, wait_for_job_with_id, add_job,
}

same_state_self : (s : JobSpyState) → same_state s s ≡ true
same_state_self scheduled = refl
same_state_self failed = refl
same_state_self completed = refl

module _ {D : Type 0} where
  -- A wait for a job that was added in the awaited state returns that job at once, and registers
  -- nothing.
  pub wait_for_job_with_id-add_job :
      (spy : Spy D) (job : Job D) (id : String) (state : JobSpyState)
      → job.id ≡ some id
      → id ≢ ""
      → wait_for_job_with_id (add_job spy job state) (some id) state
        ≡ (at_once job, add_job spy job state)
  unfolding wait_for_job_with_id add_job
  wait_for_job_with_id-add_job spy job id state named full =
      let full_text : str_eq id "" ≡ false = ground (arith, eq_iff id "") in
      rw named (
        rw full_text (
          rw
            (lookup-insert (get_job_result_key id state) (get_job_result_key id state) _
              spy.job_results)
            (rw (eq_refl (get_job_result_key id state)) (rw (same_state_self state) refl))))

  -- With no promise that is met, nothing is removed.
  met_indexes-none :
      (job : Job D) (state : JobSpyState) (i : ℕ) (ps : List (SpyPromise D))
      → All (λ p. is_met job state p ≡ false) ps
      → met_indexes job state i ps ≡ []
  met_indexes-none job state i [] h = refl
  met_indexes-none job state i (p ∷ ps) h = ground (arith, met_indexes-none job state (suc i) ps)

  -- The one index of a promise that is met lies behind those before it.
  met_indexes-one :
      (job : Job D) (state : JobSpyState) (i : ℕ) (before : List (SpyPromise D)) (p : SpyPromise D)
      (behind : List (SpyPromise D))
      → All (λ q. is_met job state q ≡ false) before
      → is_met job state p ≡ true
      → All (λ q. is_met job state q ≡ false) behind
      → met_indexes job state i (before ++ p ∷ behind) ≡ (i + length before) ∷ []
  met_indexes-one job state i [] p behind hb hp ha =
      ground (arith, met_indexes-none job state (suc i) behind)
  met_indexes-one job state i (q ∷ before) p behind hb hp ha =
      ground (arith, met_indexes-one job state (suc i) before p behind)

  remove_at-length :
      (before : List (SpyPromise D)) (p : SpyPromise D) (behind : List (SpyPromise D))
      → remove_at (length before) (before ++ p ∷ behind) ≡ before ++ behind
  remove_at-length [] p behind = refl
  remove_at-length (q ∷ before) p behind = ap (λ ps. q ∷ ps) (remove_at-length before p behind)

  met_promises-none :
      (job : Job D) (state : JobSpyState) (ps : List (SpyPromise D))
      → All (λ p. is_met job state p ≡ false) ps
      → met_promises job state ps ≡ []
  met_promises-none job state [] h = refl
  met_promises-none job state (p ∷ ps) h = ground (arith, met_promises-none job state ps)

  met_promises-one :
      (job : Job D) (state : JobSpyState) (before : List (SpyPromise D)) (p : SpyPromise D)
      (behind : List (SpyPromise D))
      → All (λ q. is_met job state q ≡ false) before
      → is_met job state p ≡ true
      → All (λ q. is_met job state q ≡ false) behind
      → met_promises job state (before ++ p ∷ behind) ≡ (p.promise, job) ∷ []
  met_promises-one job state [] p behind hb hp ha =
      ground (arith, met_promises-none job state behind)
  met_promises-one job state (q ∷ before) p behind hb hp ha =
      ground (arith, met_promises-one job state before p behind)

  -- Where one registered wait is met by a job with an id, adding the job resolves that wait with the
  -- job, and takes that one wait off the list.
  pub add_job-one :
      (spy : Spy D) (job : Job D) (id : String) (state : JobSpyState) (before : List (SpyPromise D))
      (p : SpyPromise D) (behind : List (SpyPromise D))
      → job.id ≡ some id
      → id ≢ ""
      → spy.promises ≡ before ++ p ∷ behind
      → All (λ q. is_met job state q ≡ false) before
      → is_met job state p ≡ true
      → All (λ q. is_met job state q ≡ false) behind
      → ((add_job spy job state).promises ≡ before ++ behind)
        × ((add_job spy job state).resolved ≡ spy.resolved ++ (p.promise, job) ∷ [])
  unfolding add_job
  add_job-one spy job id state before p behind named full listed hb hp ha = ground (
    arith,
    eq_iff id "",
    met_indexes-one job state 0 before p behind hb hp ha,
    met_promises-one job state before p behind hb hp ha,
    remove_at-length before p behind,
  )

  -- Where the first two of three registered waits are met and the third one is not, adding the job
  -- resolves the first two, and yet keeps the second one on the list and takes the third one off,
  -- which is never resolved.
  pub add_job-two :
      (spy : Spy D) (job : Job D) (id : String) (state : JobSpyState) (p q r : SpyPromise D)
      → job.id ≡ some id
      → id ≢ ""
      → spy.promises ≡ p ∷ q ∷ r ∷ []
      → is_met job state p ≡ true
      → is_met job state q ≡ true
      → is_met job state r ≡ false
      → ((add_job spy job state).promises ≡ q ∷ [])
        × ((add_job spy job state).resolved
            ≡ spy.resolved ++ (p.promise, job) ∷ (q.promise, job) ∷ [])
  unfolding add_job
  add_job-two spy job id state p q r named full listed hp hq hr = ground (arith, eq_iff id "")
