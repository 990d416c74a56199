-- ===== src/Retry/Tests.antt =====
-- Runs of `withRetry` and of the reading of `Retry-After`.
use shared_ts_libs.Base.{
  ℕ, zero, suc, ◌≤◌, ◌<◌, ◌+◌, ◌-◌, false, ◌≡◌, refl, [], str_eq, if◌then◌else◌, ◌∷◌, none, some,
  All,
}
use shared_ts_libs.Number.Small.{nan, finite, small, small-OrderLaws}
use shared_ts_libs.Retry.Config.{
  ResolvedRetryConfig, default_retry_config, resolve_retry_config, Clock, absent, single,
  parse_retry_after_header, apply_jitter_and_cap, compute_retry_delay,
}
use shared_ts_libs.Retry.Loop.{
  Response, named, Outcome, responds, throws, Environment, called, dumped, waits, returned, Run,
  round_of, with_retry,
}
use shared_ts_libs.Retry.Loop.Bounds.{
  count_calls, SettledBy, RetriedAfter, IsCapped, with_retry-settles, with_retry-retried,
  with_retry-IsCapped,
}

retry : Unit {0}
unfolding with_retry round_of resolve_retry_config apply_jitter_and_cap compute_retry_delay
    parse_retry_after_header
retry = tt

-- A clock that reads "3" as a number and no text as a date.
abbrev clock : Clock small
clock = record {
  number_of = λ s. if str_eq s "3" then finite 3 else nan;
  time_of = λ s. nan;
  now = finite 0;
}

abbrev busy : Response
busy = record { status_code = 503; headers = ("retry-after", single "3") ∷ []; body = some "" }

abbrev fine : Response
fine = record { status_code = 200; headers = []; body = some "ok" }

-- A busy server, a socket error, and then an answer.
abbrev answers : ℕ → Outcome
answers zero = responds busy
answers (suc zero) = throws (named "SocketError" 7)
answers (suc (suc k)) = responds fine

abbrev env : Environment small
env = record {
  call = answers;
  aborted = λ k. false;
  random = λ k. finite 0;
  clock = λ k. clock;
  wait_rejects = λ k. none;
  dump_rejects = λ k. none;
  dump_first = λ k. false;
}

abbrev config : ResolvedRetryConfig small
config = default_retry_config small

run_tests :
    (with_retry config env
      ≡ some (record {
        settled = returned fine;
        events =
            called 0
            ∷ dumped 0
            ∷ waits 0 (finite 3000)
            ∷ called 1
            ∷ waits 1 (finite 200)
            ∷ called 2
            ∷ [];
      }))
    × (parse_retry_after_header small clock (single "soon") ≡ none)
    × (parse_retry_after_header small clock absent ≡ none)
unfolding retry
run_tests = (refl, refl, refl)

with_retry-settles_example :
    (run : Run small) × (with_retry config env ≡ some run)
    × (1 ≤ count_calls run.events)
    × (count_calls run.events ≤ config.max_retries + 1)
    × SettledBy config env (count_calls run.events - 1) run.settled
with_retry-settles_example = with_retry-settles config env

with_retry-retried_example :
    (run : Run small) × (with_retry config env ≡ some run)
    × ((k : ℕ) → k + 1 < count_calls run.events → RetriedAfter config env k (env.call k))
with_retry-retried_example = with_retry-retried config env

with_retry-IsCapped_example :
    (run : Run small) × (with_retry config env ≡ some run) × All (IsCapped config) run.events
with_retry-IsCapped_example = with_retry-IsCapped small-OrderLaws config env
