-- ===== src/JobSpy.antt =====
-- packages/app/background-jobs-common/src/background-job-processor/spy/BackgroundJobProcessorSpy.ts:
-- the spy that tests wait on. A job's data is copied by value, so that the copy of the source is
-- the job itself; promises are told apart by a number, and what is resolved is a list.
pub mod Pending
mod Tests
use Prim.Native.String
use shared_ts_libs.Base.{
  ℕ, zero, suc, ◌+◌, Bool, true, false, ◌&&◌, ◌≡◌, ◌≢◌, refl, arith, List, [], ◌∷◌, ◌++◌, Option,
  none, some, String, str_eq, eq_refl, Dict, lookup, insert, lookup-insert, if◌then◌else◌, find,
  map, Option-cases, inl, inr, Bool-cases,
}

pub record Job (D : Type 0) : Type 0 where
  pub id : Option String
  pub payload : D

pub data JobSpyState : Type 0 where
  scheduled failed completed : JobSpyState

abbrev pub same_state : JobSpyState → JobSpyState → Bool
same_state scheduled scheduled = true
same_state failed failed = true
same_state completed completed = true
same_state _ _ = false

pub record SpyPromise (D : Type 0) : Type 0 where
  pub selector : Job D → Bool
  pub awaited_state : JobSpyState
  pub promise : ℕ

pub record JobProcessingResult (D : Type 0) : Type 0 where
  pub job : Job D
  pub state : JobSpyState

pub record Spy (D : Type 0) : Type 0 where
  pub job_results : Dict (JobProcessingResult D)
  pub promises : List (SpyPromise D)
  pub next_promise : ℕ
  -- the promises that have been resolved, and with which job
  pub resolved : List (ℕ × Job D)

-- What a wait returns: a job at once, or a promise that is registered.
pub data Waiting (D : Type 0) : Type 0 where
  at_once : Job D → Waiting D
  pending : ℕ → Waiting D
  no_id : Waiting D

abbrev pub empty_spy : {D : Type 0} → Spy D
empty_spy = record { job_results = []; promises = []; next_promise = 0; resolved = [] }

-- `this.jobResults.clear(); this.promises = []`: what is pending stays pending for ever.
unfoldable pub clear : {D : Type 0} → Spy D → Spy D
clear spy = record spy { job_results = []; promises = [] }

-- A final state shares its key with the other one.
unfoldable pub get_job_result_key : String → JobSpyState → String
get_job_result_key id scheduled = String.◌++◌ id "#scheduled"
get_job_result_key id failed = String.◌++◌ id "#final"
get_job_result_key id completed = String.◌++◌ id "#final"

-- array.splice(index, 1)
abbrev pub remove_at {ℓ} : {A : Type ℓ} → ℕ → List A → List A
remove_at i [] = []
remove_at zero (x ∷ xs) = xs
remove_at (suc i) (x ∷ xs) = x ∷ remove_at i xs

abbrev pub remove_each {ℓ} : {A : Type ℓ} → List ℕ → List A → List A
remove_each [] xs = xs
remove_each (i ∷ is) xs = remove_each is (remove_at i xs)

module _ {D : Type 0} where
  abbrev pub is_met : Job D → JobSpyState → SpyPromise D → Bool
  is_met job state p = p.selector job && same_state state p.awaited_state

  -- The indexes of the promises that are met, from the index `i` on.
  abbrev pub met_indexes : Job D → JobSpyState → ℕ → List (SpyPromise D) → List ℕ
  met_indexes job state i [] = []
  met_indexes job state i (p ∷ ps) =
      let rest = met_indexes job state (suc i) ps in if is_met job state p then i ∷ rest else rest

  abbrev pub met_promises : Job D → JobSpyState → List (SpyPromise D) → List (ℕ × Job D)
  met_promises job state [] = []
  met_promises job state (p ∷ ps) =
      let rest = met_promises job state ps in
      if is_met job state p then (p.promise, job) ∷ rest else rest

  register_promise : Spy D → (Job D → Bool) → JobSpyState → Waiting D × Spy D
  register_promise spy selector state = (
    pending spy.next_promise,
    record spy {
      promises =
          spy.promises
          ++ record { selector = selector; awaited_state = state; promise = spy.next_promise } ∷ [];
      next_promise = suc spy.next_promise;
    },
  )

  has_id : String → Job D → Bool
  has_id id job = elim job.id [ none ↦ false | some j ↦ str_eq j id ]

  wait_by_result :
      Spy D → (Job D → Bool) → JobSpyState → Option (JobProcessingResult D) → Waiting D × Spy D
  unfolding register_promise
  wait_by_result spy selector state none = register_promise spy selector state
  wait_by_result spy selector state (some r) =
      if same_state r.state state then (at_once r.job, spy) else register_promise spy selector state

  -- An id that is undefined or empty is an error.
  unfoldable pub wait_for_job_with_id : Spy D → Option String → JobSpyState → Waiting D × Spy D
  unfolding wait_by_result has_id get_job_result_key
  wait_for_job_with_id spy none state = (no_id, spy)
  wait_for_job_with_id spy (some id) state =
      if str_eq id ""
      then (no_id, spy)
      else wait_by_result spy (has_id id) state
          (lookup (get_job_result_key id state) spy.job_results)

  values : Dict (JobProcessingResult D) → List (JobProcessingResult D)
  values [] = []
  values ((k, r) ∷ m) = r ∷ values m

  unfoldable pub wait_for_job : Spy D → (D → Bool) → JobSpyState → Waiting D × Spy D
  unfolding wait_by_result values
  wait_for_job spy selector state =
      wait_by_result spy (λ job. selector job.payload) state
        (find (λ r. selector r.job.payload && same_state r.state state) (values spy.job_results))

  store_and_resolve : Spy D → Job D → String → JobSpyState → Spy D
  unfolding get_job_result_key
  store_and_resolve spy job id state = record spy {
    job_results =
        insert (get_job_result_key id state) (record { job = job; state = state }) spy.job_results;
    promises = remove_each (met_indexes job state 0 spy.promises) spy.promises;
    resolved = spy.resolved ++ met_promises job state spy.promises;
  }

  unfoldable pub add_job : Spy D → Job D → JobSpyState → Spy D
  unfolding store_and_resolve
  add_job spy job state = elim job.id [
    | none ↦ spy
    | some id ↦ if str_eq id "" then spy else store_and_resolve spy job id state
  ]

  unfoldable pub add_jobs : Spy D → List (Job D) → JobSpyState → Spy D
  unfolding add_job
  add_jobs spy [] state = spy
  add_jobs spy (job ∷ jobs) state = add_jobs (add_job spy job state) jobs state
