-- ===== src/Periodic/Runs.antt =====
-- What an execution of a periodic job calls, and how often.
use shared_ts_libs.Base.{
  ◌⊎◌, ℕ, ◌+◌, Bool, true, false, str_eq, ◌≡◌, List, [], ◌∷◌, Option, none, some, String,
}
use shared_ts_libs.Periodic.Config.{JobOptions, job_lock_name}
use shared_ts_libs.Periodic.Process.{
  Lock, Locks, Thrown, error, value, Event, skipped, transaction_starts, works, reports,
  transaction_stops, Ended, resolved, lock_rejected, Execution, is_successful,
}

-- How often the job works, and what transactions are started and stopped with.
abbrev pub count_works : List Event → ℕ
count_works [] = 0
count_works (works ∷ es) = count_works es + 1
count_works (e ∷ es) = count_works es

abbrev pub count_starts : List Event → ℕ
count_starts [] = 0
count_starts (transaction_starts ∷ es) = count_starts es + 1
count_starts (e ∷ es) = count_starts es

abbrev pub stops : List Event → List Bool
stops [] = []
stops (transaction_stops b ∷ es) = b ∷ stops es
stops (e ∷ es) = stops es

abbrev pub reported : List Event → List Thrown
reported [] = []
reported (reports e ∷ es) = e ∷ reported es
reported (e ∷ es) = reported es

abbrev pub errors_of : Option Thrown → List Thrown
errors_of none = []
errors_of (some (error id)) = error id ∷ []
errors_of (some (value id)) = []

-- The job has worked once, in one transaction, and its error is reported; the transaction is stopped once
-- where the execution resolves, and is left open where it is rejected.
abbrev pub HasWorked : Option Thrown → Ended → List Event → Type 0
HasWorked thrown resolved es =
    (count_works es ≡ 1)
    × (count_starts es ≡ 1)
    × (reported es ≡ errors_of thrown)
    × (stops es ≡ is_successful thrown ∷ [])
HasWorked thrown lock_rejected es =
    (count_works es ≡ 1)
    × (count_starts es ≡ 1)
    × (reported es ≡ errors_of thrown)
    × (stops es ≡ [])

abbrev pub HasNotWorked : List Event → Type 0
HasNotWorked es = (es ≡ []) ⊎ (es ≡ skipped ∷ [])

-- What an attempt to acquire the lock `l` gives.
abbrev answer_of : Lock → Option Bool → Option (Option Lock)
answer_of l none = none
answer_of l (some true) = some (some l)
answer_of l (some false) = some none

module _ (locks : Locks) (o : JobOptions) where
  open locks use {State, try_acquire}

  -- The lock of the job, for one executor.
  abbrev own_lock : String → Lock
  own_lock executor = record {
    name = job_lock_name o;
    identifier = executor;
    acquired_externally = false;
    lock_timeout = o.lock_timeout;
  }

  -- How the locks answer an attempt to acquire the lock `l`: with what is acquired, where `none` is a rejection.
  -- A lock that is refused is tried once more as one that this instance may have, if it has an identifier.
  abbrev owned : Lock → Lock
  owned l = record l { acquired_externally = true }

  pub data Acquires (l : Lock) (s : State) : Option (Option Lock) → Type 0 where
    at_once : (try_acquire l s).0 ≡ some true → Acquires l s (some (some l))
    fails : (try_acquire l s).0 ≡ none → Acquires l s none
    nameless :
        (try_acquire l s).0 ≡ some false → str_eq l.identifier "" ≡ true → Acquires l s (some none)
    again :
        {answer : Option Bool}
        → (try_acquire l s).0 ≡ some false
        → str_eq l.identifier "" ≡ false
        → (try_acquire (owned l) (try_acquire l s).1).0 ≡ answer
        → Acquires l s (answer_of (owned l) answer)

  -- What an execution does with the answer.
  abbrev pub Follows : Option Thrown → Option (Option Lock) → Execution State → Type 0
  Follows thrown none run = (run.events ≡ []) × (run.ended ≡ lock_rejected)
  Follows thrown (some none) run = (run.events ≡ skipped ∷ []) × (run.ended ≡ resolved)
  Follows thrown (some (some lock)) run =
      HasWorked thrown run.ended run.events × (run.lock ≡ some lock)

  abbrev pub IsExecution : Option Thrown → String → State → Execution State → Type 0
  IsExecution thrown executor s run =
      (o.enabled ≡ true
        → (answer : Option (Option Lock)) × Acquires (own_lock executor) s answer
          × Follows thrown answer run)
      × (o.enabled ≡ false → HasWorked thrown run.ended run.events)
