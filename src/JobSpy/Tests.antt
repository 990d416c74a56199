-- ===== src/JobSpy/Tests.antt =====
-- Waits for jobs before and after they end.
use shared_ts_libs.Base.{ℕ, ◌==◌, ◌≡◌, ◌≢◌, refl, List, [], ◌∷◌, some, String}
use shared_ts_libs.JobSpy.{
  Job, JobSpyState, failed, completed, SpyPromise, Spy, at_once, pending, no_id, empty_spy, clear,
  wait_for_job_with_id, wait_for_job, add_job, add_jobs,
}
use shared_ts_libs.JobSpy.Pending.{wait_for_job_with_id-add_job, add_job-one, add_job-two}

spy : Unit {0}
unfolding wait_for_job_with_id wait_for_job add_job add_jobs clear
spy = tt

abbrev job : ℕ → String → Job ℕ
job data_of id = record { id = some id; payload = data_of }

abbrev waiter : ℕ → JobSpyState → ℕ → SpyPromise ℕ
waiter wanted state promise = record {
  selector = λ j. j.payload == wanted;
  awaited_state = state;
  promise = promise;
}

abbrev waiting_spy : List (SpyPromise ℕ) → Spy ℕ
waiting_spy ps = record { job_results = []; promises = ps; next_promise = 9; resolved = [] }

spy_tests :
    ((wait_for_job_with_id (add_job empty_spy (job 3 "a") failed) (some "a") completed).0
      ≡ pending 0)
    × ((wait_for_job (add_job empty_spy (job 3 "a") failed) (λ d. d == 3) failed).0
        ≡ at_once (job 3 "a"))
    × ((wait_for_job_with_id (empty_spy {D = ℕ}) (some "") completed).0 ≡ no_id)
unfolding spy
spy_tests = (refl, refl, refl)

abbrev id : String
id = "a"

full : id ≢ ""
full e = cc

wait_for_job_with_id-add_job_example :
    wait_for_job_with_id (add_job empty_spy (job 3 "a") failed) (some "a") failed
    ≡ (at_once (job 3 "a"), add_job empty_spy (job 3 "a") failed)
wait_for_job_with_id-add_job_example =
    wait_for_job_with_id-add_job empty_spy (job 3 "a") "a" failed refl full

abbrev mixed : List (SpyPromise ℕ)
mixed = waiter 3 completed 0 ∷ waiter 3 failed 1 ∷ waiter 4 failed 2 ∷ []

add_job-one_example :
    ((add_job (waiting_spy mixed) (job 3 "a") failed).promises
      ≡ waiter 3 completed 0 ∷ waiter 4 failed 2 ∷ [])
    × ((add_job (waiting_spy mixed) (job 3 "a") failed).resolved ≡ (1, job 3 "a") ∷ [])
add_job-one_example =
    add_job-one (waiting_spy mixed) (job 3 "a") "a" failed (waiter 3 completed 0 ∷ [])
      (waiter 3 failed 1) (waiter 4 failed 2 ∷ []) refl full refl (refl, tt) refl (refl, tt)

abbrev crowded : List (SpyPromise ℕ)
crowded = waiter 3 failed 0 ∷ waiter 3 failed 1 ∷ waiter 4 failed 2 ∷ []

add_job-two_example :
    ((add_job (waiting_spy crowded) (job 3 "a") failed).promises ≡ waiter 3 failed 1 ∷ [])
    × ((add_job (waiting_spy crowded) (job 3 "a") failed).resolved
        ≡ (0, job 3 "a") ∷ (1, job 3 "a") ∷ [])
add_job-two_example =
    add_job-two (waiting_spy crowded) (job 3 "a") "a" failed (waiter 3 failed 0) (waiter 3 failed 1)
      (waiter 4 failed 2) refl full refl refl refl refl
