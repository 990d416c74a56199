-- ===== src/Processor/Lifecycle.antt =====
-- `start`, `internalStart` and `dispose` of AbstractBackgroundJobProcessorNew.ts, with the set of the
-- queue ids that have a processor, which all monitors share.
use shared_ts_libs.Base.{
  Bool, true, false, not, ◌&&◌, ◌≡◌, refl, ap, ◌∙◌, arith, List, [], ◌∷◌, String, str_eq, eq_iff,
  contains, add, contains-add, keep, Bool-cases, inl, inr, if◌then◌else◌,
}

pub data StartError : Type 0 where
  not_unique not_built not_ready : StartError

pub data Started : Type 0 where
  resolves : Started
  rejects : StartError → Started

-- What starting a worker answers: whether it is built, and whether it gets ready, which only tests await.
pub record WorkerAnswers : Type 0 where
  pub is_built : Bool
  pub is_ready : Bool
  pub is_test : Bool

pub data StartPromise : Type 0 where
  no_promise : StartPromise
  rejected_promise : StartError → StartPromise

pub record Lifecycle : Type 0 where
  pub has_worker : Bool
  pub start_promise : StartPromise

abbrev pub new_processor : Lifecycle
new_processor = record { has_worker = false; start_promise = no_promise }

-- set.delete(key)
abbrev pub remove : String → List String → List String
remove k s = keep (λ j. not (str_eq j k)) s

module _ (queue_id : String) (answers : WorkerAnswers) where
  abbrev awaited : (is_test is_ready : Bool) → List String → Started × Lifecycle × List String
  awaited true false active = (
    rejects not_ready,
    record { has_worker = true; start_promise = rejected_promise not_ready },
    active,
  )
  awaited is_test is_ready active =
      (resolves, record { has_worker = true; start_promise = no_promise }, active)

  abbrev built : Bool → List String → Started × Lifecycle × List String
  built false active = (
    rejects not_built,
    record { has_worker = false; start_promise = rejected_promise not_built },
    active,
  )
  built true active = awaited answers.is_test answers.is_ready active

  -- `internalStart` of a processor without a worker: the id is registered first.
  abbrev pub registered : (is_active : Bool) → List String → Started × Lifecycle × List String
  registered true active = (
    rejects not_unique,
    record { has_worker = false; start_promise = rejected_promise not_unique },
    active,
  )
  registered false active = built answers.is_built (add queue_id active)

  -- A promise that is rejected is kept, so that a later call awaits it again.
  abbrev pub start_from :
      Bool → StartPromise → Lifecycle → List String → Started × Lifecycle × List String
  start_from true _ p active = (resolves, p, active)
  start_from false (rejected_promise e) p active = (rejects e, p, active)
  start_from false no_promise p active = registered (contains queue_id active) active

  unfoldable pub start_processor : Lifecycle → List String → Started × Lifecycle × List String
  start_processor p active = start_from p.has_worker p.start_promise p active

unfoldable pub dispose_processor : String → Lifecycle → List String → Lifecycle × List String
dispose_processor queue_id p active =
    if p.has_worker then (record p { has_worker = false }, remove queue_id active) else (p, active)

contains-remove :
    (k j : String) (s : List String) → contains j (remove k s) ≡ (not (str_eq k j) && contains j s)
contains-remove k j [] = ground arith
contains-remove k j (i ∷ s) =
    ground (arith, eq_iff k j, eq_iff i k, eq_iff i j, contains-remove k j s)

contains-remove-add :
    (k j : String) (s : List String)
    → contains k s ≡ false
    → contains j (remove k (add k s)) ≡ contains j s
contains-remove-add k j s lacks =
    ground (arith, eq_iff k j, contains-remove k j (add k s), contains-add k j s)

-- A worker that does not get ready is there nevertheless.
abbrev pub is_not_ready : StartError → Bool
is_not_ready not_ready = true
is_not_ready e = false

-- The answer of a start that finds what a rejected one has left.
abbrev pub answer_again : StartError → Started
answer_again not_ready = resolves
answer_again e = rejects e

module _ (queue_id : String) where
  -- What a first start leaves.
  abbrev pub IsStarted : List String → Started × Lifecycle × List String → Type 0
  IsStarted active (resolves, p, left) =
      (contains queue_id active ≡ false)
      × (contains queue_id left ≡ true)
      × (p.has_worker ≡ true)
      × ((k : String) → contains k (dispose_processor queue_id p left).1 ≡ contains k active)
  IsStarted active (rejects e, p, left) =
      (p.start_promise ≡ rejected_promise e) × (p.has_worker ≡ is_not_ready e)

  added_there : (active : List String) → contains queue_id (add queue_id active) ≡ true
  added_there active =
      ground (arith, contains-add queue_id queue_id active, eq_iff queue_id queue_id)

  built-IsStarted :
      (is_built is_test is_ready : Bool) (active : List String)
      → contains queue_id active ≡ false
      → IsStarted active (
          built queue_id
            (record { is_built = is_built; is_ready = is_ready; is_test = is_test })
            is_built
            (add queue_id active))
  unfolding dispose_processor
  built-IsStarted false is_test is_ready active lacks = (refl, refl)
  built-IsStarted true true false active lacks = (refl, refl)
  built-IsStarted true true true active lacks =
      (lacks, added_there active, refl, λ k. contains-remove-add queue_id k active lacks)
  built-IsStarted true false is_ready active lacks =
      (lacks, added_there active, refl, λ k. contains-remove-add queue_id k active lacks)

  registered-IsStarted :
      (answers : WorkerAnswers) (there : Bool) (active : List String)
      → contains queue_id active ≡ there
      → IsStarted active (registered queue_id answers there active)
  registered-IsStarted answers true active h = (refl, refl)
  registered-IsStarted answers false active h =
      built-IsStarted answers.is_built answers.is_test answers.is_ready active h

  rejected_kept :
      (active : List String) (run : Started × Lifecycle × List String) (e : StartError)
      → IsStarted active run
      → run.0 ≡ rejects e
      → run.1.start_promise ≡ rejected_promise e
  rejected_kept active (resolves, p, left) e h r = cc
  rejected_kept active (rejects x, p, left) e h r =
      let same : x ≡ e = cc in h.0 ∙ ap rejected_promise same

  rejected_worker :
      (active : List String) (run : Started × Lifecycle × List String) (e : StartError)
      → IsStarted active run
      → run.0 ≡ rejects e
      → run.1.has_worker ≡ is_not_ready e
  rejected_worker active (resolves, p, left) e h r = cc
  rejected_worker active (rejects x, p, left) e h r =
      let same : x ≡ e = cc in h.1 ∙ ap is_not_ready same

  start_from-again :
      (again : WorkerAnswers) (e : StartError) (p : Lifecycle) (later : List String)
      → start_from queue_id again (is_not_ready e) (rejected_promise e) p later
        ≡ (answer_again e, p, later)
  start_from-again again not_unique p later = refl
  start_from-again again not_built p later = refl
  start_from-again again not_ready p later = refl

  dispose_processor-has_worker :
      (p : Lifecycle) (active : List String)
      → (dispose_processor queue_id p active).0.has_worker ≡ false
  unfolding dispose_processor
  dispose_processor-has_worker p active = elim (Bool-cases p.has_worker) [
    | inl up ↦ simp up refl
    | inr down ↦ simp down refl
  ]

  dispose_processor-start_promise :
      (p : Lifecycle) (active : List String)
      → (dispose_processor queue_id p active).0.start_promise ≡ p.start_promise
  unfolding dispose_processor
  dispose_processor-start_promise p active = elim (Bool-cases p.has_worker) [
    | inl up ↦ simp up refl
    | inr down ↦ simp down refl
  ]

  -- A first start resolves only where no other processor has the queue id; it then has a worker and the
  -- id is registered, and disposing gives the set of ids back as it was. Once the first start is
  -- rejected, the next one registers nothing, whatever ids are registered then: after disposing it is
  -- rejected with the same error; without disposing it is so too, unless the worker did not get ready, where
  -- it resolves.
  pub start_processor-IsStarted :
      (answers : WorkerAnswers) (active : List String)
      → (let run = start_processor queue_id answers new_processor active in
          IsStarted active run
          × ((e : StartError) (again : WorkerAnswers) (between later : List String)
              → run.0 ≡ rejects e
              → (let p = (dispose_processor queue_id run.1 between).0 in
                  (start_processor queue_id again p later ≡ (rejects e, p, later))
                  × (start_processor queue_id again run.1 later ≡ (answer_again e, run.1, later)))))
  unfolding start_processor
  start_processor-IsStarted answers active =
      let run = start_processor queue_id answers new_processor active in
      let first : IsStarted active run =
        registered-IsStarted answers (contains queue_id active) active refl in
      (
        first,
        λ e again between later r.
            let p = (dispose_processor queue_id run.1 between).0 in
            let idle = dispose_processor-has_worker run.1 between in
            let promise = rejected_kept active run e first r in
            let kept = dispose_processor-start_promise run.1 between ∙ promise in
            let worker = rejected_worker active run e first r in
            (
              λ i. start_from queue_id again (idle i) (kept i) p later,
              (λ i. start_from queue_id again (worker i) (promise i) run.1 later)
                  ∙ start_from-again again e run.1 later,
            ),
      )
