-- ===== src/Retry/Loop.antt =====
-- `withRetry`: the loop over calls of `fn`, with what it does to the outside as a list of events.

pub mod Trace
pub mod Bounds
use shared_ts_libs.Base.{
  ℕ, zero, suc, ◌+◌, Bool, true, false, not, ◌&&◌, ◌||◌, ◌==◌, leb, List, [], ◌∷◌, ◌++◌, Option,
  none, some, String, str_eq, some_of, if◌then◌else◌, Dict, lookup,
}
use shared_ts_libs.Number.{Numbers, gt, zero_num}
use shared_ts_libs.Retry.Config.{
  ResolvedRetryConfig, Header, absent, Clock, apply_jitter_and_cap, compute_retry_delay,
}

-- A response's `body` is what it is read as; `none` is a body whose reading is rejected.
pub record Response : Type 0 where
  pub status_code : ℕ
  pub headers : Dict Header
  pub body : Option String

-- `headers['retry-after']`
abbrev pub retry_after : Response → Header
retry_after response = elim (lookup "retry-after" response.headers) [ none ↦ absent | some h ↦ h ]

-- What a call or a wait may throw: an object with a `name`, if it has one that is a text, or
-- another value. The number tells values apart.
pub data Thrown : Type 0 where
  named : (name : String) → (id : ℕ) → Thrown
  unnamed : (id : ℕ) → Thrown

pub data Outcome : Type 0 where
  responds : Response → Outcome
  throws : Thrown → Outcome

-- What the outside does in the round with retry number `k`.
pub record Environment (n : Numbers) : Type 0 where
  pub call : ℕ → Outcome
  -- `signal.aborted` when call `k` has thrown
  pub aborted : ℕ → Bool
  pub random : ℕ → n.Num
  pub clock : ℕ → Clock n
  -- what the wait of the round, or the consumption of the response's body, is rejected with
  pub wait_rejects : ℕ → Option Thrown
  pub dump_rejects : ℕ → Option Thrown
  -- which of the two is rejected first, if both are
  pub dump_first : ℕ → Bool

pub data Event (n : Numbers) : Type 0 where
  called : ℕ → Event n
  dumped : ℕ → Event n
  waits : ℕ → n.Num → Event n

pub data Settled : Type 0 where
  returned : Response → Settled
  thrown : Thrown → Settled

pub record Run (n : Numbers) : Type 0 where
  pub settled : Settled
  pub events : List (Event n)

-- What a round of the loop comes to: the run settles, or the loop continues.
pub data Round (n : Numbers) : Type 0 where
  settles : Settled → List (Event n) → Round n
  continues : List (Event n) → Round n

-- The events of a round come before those of the rest of the run.
abbrev pub after : {n : Numbers} → List (Event n) → Option (Run n) → Option (Run n)
after es none = none
after es (some run) = some (record { settled = run.settled; events = es ++ run.events })

abbrev pub stop : {n : Numbers} → Settled → List (Event n) → Option (Run n)
stop s es = some (record { settled = s; events = es })

unfoldable pub is_timeout : Thrown → Bool
is_timeout (named name id) = str_eq name "TimeoutError"
is_timeout (unnamed id) = false

-- What is left of the run is looked at only if the loop continues.
abbrev pub proceed : {n : Numbers} → ℕ → Round n → Option (Run n) → Option (Run n)
proceed r (settles s es) rest = stop s (called r ∷ es)
proceed r (continues es) rest = after (called r ∷ es) rest

unfoldable pub includes : ℕ → List ℕ → Bool
includes k ks = some_of (λ j. j == k) ks

-- The first rejection of Promise.all over the body's consumption and the wait.
unfoldable pub first_rejection : Bool → Option Thrown → Option Thrown → Option Thrown
first_rejection dump_first none wait = wait
first_rejection dump_first (some d) none = some d
first_rejection dump_first (some d) (some w) = if dump_first then some d else some w

module _ {n : Numbers} where
  continue_or_reject : Option Thrown → List (Event n) → Round n
  continue_or_reject none es = continues es
  continue_or_reject (some e) es = settles (thrown e) es

  -- The wait between two attempts, left out where the delay is not above 0.
  wait_then_continue : Environment n → ℕ → n.Num → Round n
  unfolding continue_or_reject
  wait_then_continue env r delay =
      if gt n delay (zero_num n)
      then continue_or_reject (env.wait_rejects r) (waits r delay ∷ [])
      else continues []

  dump_then_continue : Environment n → ℕ → n.Num → Round n
  unfolding continue_or_reject first_rejection
  dump_then_continue env r delay =
      if gt n delay (zero_num n)
      then continue_or_reject
          (first_rejection (env.dump_first r) (env.dump_rejects r) (env.wait_rejects r))
          (dumped r ∷ waits r delay ∷ [])
      else continue_or_reject (env.dump_rejects r) (dumped r ∷ [])

module _ {n : Numbers} (config : ResolvedRetryConfig n) (env : Environment n) where
  -- `isTimeout ? config.retryOnTimeout : config.retryOnNetworkError`
  unfoldable pub may_retry : Thrown → Bool
  unfolding is_timeout
  may_retry e = if is_timeout e then config.retry_on_timeout else config.retry_on_network_error

  -- Round `r` makes call `r`; `retryNumber` is `r` before the increment and `r + 1` after it.
  after_throw : ℕ → Bool → Thrown → Round n
  unfolding may_retry wait_then_continue
  after_throw r is_last e =
      if is_last || env.aborted r
      then settles (thrown e) []
      else if not (may_retry e)
      then settles (thrown e) []
      else wait_then_continue env r
          (apply_jitter_and_cap n (env.random r) (config.delay (suc r)) config)

  after_response : ℕ → Bool → Response → Round n
  unfolding includes dump_then_continue
  after_response r is_last response =
      if not is_last && includes response.status_code config.status_codes
      then dump_then_continue env r
          (compute_retry_delay n (env.random r) (env.clock r) (retry_after response) (suc r) config)
      else settles (returned response) []

  unfoldable pub round_of : ℕ → Bool → Outcome → Round n
  unfolding after_throw after_response
  round_of r is_last (responds response) = after_response r is_last response
  round_of r is_last (throws e) = after_throw r is_last e

  -- `none` is a run that is not over when the fuel is.
  unfoldable pub loop : ℕ → ℕ → Option (Run n)
  loop zero r = none
  loop (suc fuel) r =
      let rest = loop fuel (suc r) in
      proceed r (round_of r (leb config.max_retries r) (env.call r)) rest

  -- One attempt, and as many retries as the configuration allows.
  unfoldable pub with_retry : Option (Run n)
  unfolding loop
  with_retry = loop (suc config.max_retries) 0
