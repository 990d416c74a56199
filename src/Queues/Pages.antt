-- ===== src/Queues/Pages.antt =====
-- Pages of the jobs of a queue.
use shared_ts_libs.Base.{
  ℕ, zero, suc, ◌+◌, ◌-◌, ◌≤◌, ltb, Bool, true, false, ◌≡◌, refl, ap, ◌∙◌, arith, List, [], ◌∷◌,
  some, String, contains, length, take, drop,
}
use shared_ts_libs.JobSpy.{Job}
use shared_ts_libs.Queues.Options.{ok, JobsOptions}
use shared_ts_libs.Queues.Registry.{QueueConfiguration, Backend}
use shared_ts_libs.Queues.Manager.{QueueManagerConfig, Manager, is_started, get_queue}
use shared_ts_libs.Queues.Calls.{page_of, get_jobs_in_queue}
use shared_ts_libs.Queues.Starts.{start_if_not_started-started}

take-take : {A : Type 0} → (n : ℕ) (xs : List A) → take n (take (suc n) xs) ≡ take n xs
take-take zero xs = refl
take-take (suc n) [] = refl
take-take (suc n) (x ∷ xs) = ap (λ ys. x ∷ ys) (take-take n xs)

ltb-length-take :
    {A : Type 0} → (n : ℕ) (xs : List A) → ltb n (length (take (suc n) xs)) ≡ ltb n (length xs)
ltb-length-take zero [] = refl
ltb-length-take zero (x ∷ xs) = ground arith
ltb-length-take (suc n) [] = refl
ltb-length-take (suc n) (x ∷ xs) = ground (arith, ltb-length-take n xs)

ltb-length-drop :
    {A : Type 0} → (k n : ℕ) (xs : List A) → ltb n (length (drop k xs)) ≡ ltb (k + n) (length xs)
ltb-length-drop zero n xs = ground arith
ltb-length-drop (suc k) n [] = ground arith
ltb-length-drop (suc k) n (x ∷ xs) = ground (arith, ltb-length-drop k n xs)

page_of-slice :
    {P : Type 0}
    → (first last : ℕ) (all : List (Job P)) → first ≤ last
    → page_of first last (take (suc (suc (last - first))) (drop first all)) ≡ record {
      jobs = take (suc (last - first)) (drop first all);
      has_more = ltb (suc last) (length all);
    }
page_of-slice first last all le =
    let n = suc (last - first) in
    let behind : first + n ≡ suc last = omega (arith, le) in
    let more : ltb n (length (take (suc n) (drop first all))) ≡ ltb (suc last) (length all) =
      ltb-length-take n (drop first all)
      ∙ ltb-length-drop first n all
      ∙ ap (λ k. ltb k (length all)) behind in
    let one : 1 + (last - first) ≡ suc (last - first) = omega arith in
    rw (one, page_of) λ i. record { jobs = take-take n (drop first all) i; has_more = more i }

module _ {Input P Rest : Type 0} (backend : Backend P Rest)
    (merge : JobsOptions P Rest → JobsOptions P Rest → JobsOptions P Rest)
    (no_keys : JobsOptions P Rest) (config : QueueManagerConfig)
    (configs : List (QueueConfiguration Input P Rest)) where
  -- Where BullMQ's `getJobs` returns the jobs from one position to another, both included, a page
  -- from `first` to `last` of a queue that is built holds the jobs at these positions, and `has_more`
  -- says whether a job stands behind them; the manager is unchanged.
  pub get_jobs_in_queue-page :
      (m : Manager backend) (id state : String) (states : List String) (first last : ℕ) (asc : Bool)
      (all : List (Job P))
      → first ≤ last
      → is_started backend m ≡ true
      → contains id m.queues ≡ true
      → ((f l : ℕ)
          → f ≤ l
          → backend.get_jobs m.state id (state ∷ states) f l asc
            ≡ some (take (suc (l - f)) (drop f all)))
      → get_jobs_in_queue backend config configs id (state ∷ states) first last asc m ≡ (
        ok (record {
          jobs = take (suc (last - first)) (drop first all);
          has_more = ltb (suc last) (length all);
        }),
        m,
      )
  unfolding get_jobs_in_queue get_queue
  get_jobs_in_queue-page m id state states first last asc all le up built slices =
      let in_order : ltb last first ≡ false = ground arith in
      let one_more : last + 1 - first ≡ suc (last - first) = omega (arith, le) in
      rw (in_order, get_jobs_in_queue)
        (rw (start_if_not_started-started backend merge no_keys config configs id m up) (
          rw (built, get_queue)
            (rw (slices first (last + 1) (omega (arith, le)))
              (rw one_more (rw (page_of-slice first last all le) refl)))))
