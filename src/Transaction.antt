-- ===== src/Transaction.antt =====
-- packages/app/prisma-utils/src/transaction/prismaTransaction.ts, with the tests on errors of
-- packages/app/prisma-utils/src/errors. Times are whole milliseconds and the number of retries is a
-- natural number; an option is left out or given, never given as undefined. What the database does
-- in a try with some timeout is a function of both.
pub mod Tries
mod Tests
use shared_ts_libs.Base.{
  ℕ, zero, suc, ◌+◌, ◌-◌, ◌*◌, ◌^◌, min, Bool, true, false, ◌&&◌, ◌||◌, ◌==◌, leb, List, [], ◌∷◌,
  ◌++◌, Option, none, some, String, str_eq, Text, codes, starts_with, text_includes, ascii_lower,
  contains, if◌then◌else◌,
}

-- What is thrown: an Error with its code, its message and the code in its meta, where they are
-- texts; or another value.
pub data Failure : Type 0 where
  error : (code : Option String) → (message : String) → (meta_code : Option String) → Failure
  no_error : ℕ → Failure

pub data Tried (T : Type 0) : Type 0 where
  commits : T → Tried T
  fails : Failure → Tried T

-- The code, if the error is one of the Prisma client.
prisma_code : Failure → Option String
prisma_code (error (some code) message meta) =
    if starts_with (codes "P") (codes code) then some code else none
prisma_code f = none

-- No character but a letter of ASCII has a lower case that is searched for here.
is_transaction_closed : String → Failure → Bool
is_transaction_closed code (error c message meta) =
    str_eq code "P2028"
    && text_includes (codes "transaction already closed") (ascii_lower (codes message))
is_transaction_closed code (no_error k) = false

is_cockroachdb_retry : Failure → Bool
is_cockroachdb_retry (error c message (some meta_code)) = str_eq meta_code "40001"
is_cockroachdb_retry f = false

abbrev codes_to_retry : List String
codes_to_retry = "P2034" ∷ "P1017" ∷ "P2028" ∷ []

-- false, true and 'increase-timeout'
pub data RetryAllowed : Type 0 where
  refused allowed increase_timeout : RetryAllowed

allowed_by_code : String → Failure → Option String → RetryAllowed
unfolding is_transaction_closed is_cockroachdb_retry
allowed_by_code db_driver f none = refused
allowed_by_code db_driver f (some code) =
    if is_transaction_closed code f
    then increase_timeout
    else if contains code codes_to_retry
    then allowed
    else if str_eq db_driver "CockroachDb" && is_cockroachdb_retry f
    then allowed
    else refused

unfoldable pub is_retry_allowed : String → Option Failure → RetryAllowed
unfolding allowed_by_code prisma_code
is_retry_allowed db_driver none = refused
is_retry_allowed db_driver (some f) = allowed_by_code db_driver f (prisma_code f)

pub record Options : Type 0 where
  pub db_driver : String
  pub retries_allowed : Option ℕ
  pub base_retry_delay_ms : Option ℕ
  pub max_retry_delay_ms : Option ℕ
  pub timeout : Option ℕ
  pub max_timeout : Option ℕ

pub record OptionsWithDefaults : Type 0 where
  pub db_driver : String
  pub retries_allowed : ℕ
  pub base_retry_delay_ms : ℕ
  pub max_retry_delay_ms : ℕ
  pub timeout : ℕ
  pub max_timeout : ℕ

abbrev or_else : Option ℕ → ℕ → ℕ
or_else none d = d
or_else (some n) d = n

unfoldable pub with_defaults : Options → OptionsWithDefaults
with_defaults o = record {
  db_driver = o.db_driver;
  retries_allowed = or_else o.retries_allowed 2;
  base_retry_delay_ms = or_else o.base_retry_delay_ms 100;
  max_retry_delay_ms = or_else o.max_retry_delay_ms 30000;
  timeout = or_else o.timeout 5000;
  max_timeout = or_else o.max_timeout 30000;
}

unfoldable pub calculate_retry_delay : (retries base_retry_delay_ms max_delay_ms : ℕ) → ℕ
calculate_retry_delay retries base max_delay = min (2 ^ (retries - 1) * base) max_delay

pub data Event : Type 0 where
  waits : (ms : ℕ) → Event
  tries : (timeout : ℕ) → Event

pub record Run (T : Type 0) : Type 0 where
  pub result : Tried T
  pub events : List Event

module _ {T : Type 0} (truthy : T → Bool) (o : OptionsWithDefaults) where
  -- `if (result.result) break`, and `isRetryAllowed` where that does not break.
  unfoldable pub verdict : Tried T → RetryAllowed
  unfolding is_retry_allowed
  verdict (commits v) = if truthy v then refused else is_retry_allowed o.db_driver none
  verdict (fails f) = is_retry_allowed o.db_driver (some f)

module _ (o : OptionsWithDefaults) where
  unfoldable pub next_timeout : RetryAllowed → ℕ → ℕ
  next_timeout increase_timeout timeout = min (timeout * 2) o.max_timeout
  next_timeout v timeout = timeout

  -- The wait before try `retries`, and the try.
  unfoldable pub round_events : ℕ → ℕ → List Event
  unfolding calculate_retry_delay
  round_events zero timeout = tries timeout ∷ []
  round_events (suc r) timeout =
      waits (calculate_retry_delay (suc r) o.base_retry_delay_ms o.max_retry_delay_ms)
      ∷ tries timeout
      ∷ []

-- What is left of the run is looked at only if a retry is allowed.
abbrev pub proceed : {T : Type 0} → RetryAllowed → List Event → Tried T → Run T → Run T
proceed refused es tried rest = record { result = tried; events = es }
proceed v es tried rest = record { result = rest.result; events = es ++ rest.events }

module _ {T : Type 0} (truthy : T → Bool) (o : OptionsWithDefaults)
    (attempt : ℕ → ℕ → Tried T) where
  -- The do-while loop with `left` more retries allowed.
  unfoldable pub loop : ℕ → ℕ → ℕ → Run T
  loop zero retries timeout = record {
    result = attempt retries timeout;
    events = round_events o retries timeout;
  }
  loop (suc left) retries timeout =
      let tried = attempt retries timeout in
      let rest = loop left (suc retries) (next_timeout o (verdict truthy o tried) timeout) in
      proceed (verdict truthy o tried) (round_events o retries timeout) tried rest

module _ {T : Type 0} where
  unfoldable pub prisma_transaction : (T → Bool) → Options → (ℕ → ℕ → Tried T) → Run T
  unfolding loop
  prisma_transaction truthy options attempt =
      let o = with_defaults options in loop truthy o attempt o.retries_allowed 0 o.timeout
