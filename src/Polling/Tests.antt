-- ===== src/Polling/Tests.antt =====
-- Runs of the strategy with a service that is ready at the third poll, and the delay that is no
-- number.
use shared_ts_libs.Base.{
  ℕ, zero, suc, ◌<◌, true, false, ◌≡◌, refl, arith, [], ◌∷◌, none, some, leb, if◌then◌else◌,
}
use shared_ts_libs.Number.{gt, zero_num, min_of, max_of}
use shared_ts_libs.Number.Small.{finite, small, small-OrderLaws}
use shared_ts_libs.Polling.Backoff.{
  ExponentialBackoffConfig, whole, attempts, validate_config, calculate_delay,
}
use shared_ts_libs.Polling.Backoff.Delays.{calculate_delay_bounds}
use shared_ts_libs.Polling.Execute.{
  PollResult, complete, incomplete, cancelled, polled, on_attempt, on_wait, on_success, succeeds,
  polling_error, Environment, delay_rejects, execute,
}
use shared_ts_libs.Polling.Execute.Attempts.{IsRun, execute-IsRun}
use shared_ts_libs.Polling.Execute.Spurious.{IsSpurious, delay_at, execute_spurious}

polling : Unit {0}
unfolding execute calculate_delay validate_config min_of max_of delay_rejects
polling = tt

abbrev config : ExponentialBackoffConfig small
config = record {
  initial_delay_ms = finite 100;
  max_delay_ms = finite 250;
  backoff_multiplier = finite 2;
  max_attempts = whole 3;
  jitter_factor = none;
}

abbrev environment : (ℕ → PollResult ℕ ℕ) → Environment small ℕ ℕ
environment poll = record {
  poll = poll;
  aborted = λ k. false;
  aborted_in_delay = λ k. false;
  random = λ k. finite 0;
}

abbrev ready_at_third : Environment small ℕ ℕ
ready_at_third = environment (λ k. if leb 3 k then complete 42 else incomplete)

run_tests :
    (execute config 3 ready_at_third ≡ record {
      outcome = succeeds 42;
      events =
          polled 1
          ∷ on_attempt 1 false
          ∷ on_wait 1 (finite 100)
          ∷ polled 2
          ∷ on_attempt 2 false
          ∷ on_wait 2 (finite 200)
          ∷ polled 3
          ∷ on_attempt 3 true
          ∷ on_success 3
          ∷ [];
    })
    × (calculate_delay small config (finite 0) 2 ≡ finite 250)
    × (validate_config small (record config { max_attempts = whole 0 }) ≡ some attempts)
unfolding polling
run_tests = (refl, refl, refl)

execute-IsRun_example : IsRun config 3 ready_at_third 0 (execute config 3 ready_at_third)
execute-IsRun_example = execute-IsRun config 3 ready_at_third

config_valid : validate_config small config ≡ none
unfolding polling
config_valid = refl

calculate_delay_bounds_example :
    (gt small (calculate_delay small config (finite 0) 2) (finite 250) ≡ false)
    × (small.lt (calculate_delay small config (finite 0) 2) (zero_num small) ≡ false)
calculate_delay_bounds_example =
    calculate_delay_bounds small-OrderLaws config (finite 0) 2 config_valid

-- From 0 ms, with a power that overflows at the second delay.
abbrev overflowing : ExponentialBackoffConfig small
overflowing = record config { initial_delay_ms = finite 0; backoff_multiplier = finite 1001 }

abbrev never_ready : Environment small ℕ ℕ
never_ready = environment (λ k. incomplete)

first_delays :
    (i : ℕ) → i < 2 → delay_rejects small (delay_at overflowing 3 never_ready 2 i) false ≡ false
unfolding polling
first_delays zero h = refl
first_delays (suc zero) h = refl
first_delays (suc (suc i)) h = absurd (omega arith)

second_delay : small.is_finite (delay_at overflowing 3 never_ready 2 2) ≡ false
unfolding polling
second_delay = refl

overflow-IsSpurious : IsSpurious overflowing 3 never_ready 2
overflow-IsSpurious = record {
  not_last = (omega arith, omega arith);
  never_aborted = λ i. refl;
  going = λ i h. refl;
  accepted = first_delays;
  not_finite = second_delay;
}

execute_spurious_example : (execute overflowing 3 never_ready).outcome ≡ polling_error cancelled 2
execute_spurious_example = execute_spurious overflowing 3 never_ready 2 overflow-IsSpurious
