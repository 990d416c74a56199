-- ===== src/Polling/Backoff.antt =====
-- ExponentialBackoffStrategy.ts: the configuration, its checks and the delay between attempts.
pub mod Delays
use shared_ts_libs.Base.{
  ℕ, zero, suc, Bool, true, false, not, ◌||◌, Option, none, some, if◌then◌else◌,
}
use shared_ts_libs.Number.{Numbers, gt, min_of, max_of, zero_num}

-- A number that is a natural one, or any other (negative, fractional, not finite).
pub data Count (n : Numbers) : Type 0 where
  whole : ℕ → Count n
  other : n.Num → Count n

pub record ExponentialBackoffConfig (n : Numbers) : Type 0 where
  pub initial_delay_ms : n.Num
  pub max_delay_ms : n.Num
  pub backoff_multiplier : n.Num
  pub max_attempts : Count n
  pub jitter_factor : Option n.Num

-- The checks, by the field that they are about.
pub data InvalidConfig : Type 0 where
  initial_delay max_delay initial_above_max multiplier attempts jitter : InvalidConfig

-- `!Number.isInteger(m) || m < 1`
abbrev not_positive : {n : Numbers} → Count n → Bool
not_positive (whole zero) = true
not_positive (whole (suc m)) = false
not_positive (other a) = true

module _ (n : Numbers) where
  open n use {Num, of_nat, add, sub, mul, pow, round, half, fifth, lt, is_finite}

  bad_jitter : Option Num → Bool
  bad_jitter none = false
  bad_jitter (some j) = not (is_finite j) || lt j (zero_num n) || gt n j (of_nat 1)

  -- The constructor throws what this returns.
  unfoldable pub validate_config : ExponentialBackoffConfig n → Option InvalidConfig
  unfolding bad_jitter
  validate_config c =
      if not (is_finite c.initial_delay_ms) || lt c.initial_delay_ms (zero_num n)
      then some initial_delay
      else if not (is_finite c.max_delay_ms) || lt c.max_delay_ms (zero_num n)
      then some max_delay
      else if gt n c.initial_delay_ms c.max_delay_ms
      then some initial_above_max
      else if not (is_finite c.backoff_multiplier) || not (gt n c.backoff_multiplier (zero_num n))
      then some multiplier
      else if not_positive c.max_attempts
      then some attempts
      else if bad_jitter c.jitter_factor
      then some jitter
      else none

  abbrev or_fifth : Option Num → Num
  or_fifth none = fifth
  or_fifth (some j) = j

  base_delay : ExponentialBackoffConfig n → ℕ → Num
  base_delay c index =
      min_of n (mul c.initial_delay_ms (pow c.backoff_multiplier (of_nat index))) c.max_delay_ms

  -- `random` is the value of Math.random().
  unfoldable pub calculate_delay : ExponentialBackoffConfig n → Num → ℕ → Num
  unfolding base_delay
  calculate_delay c random index =
      let base = base_delay c index in
      let change = mul (mul base (or_fifth c.jitter_factor)) (sub random half) in
      min_of n c.max_delay_ms (max_of n (zero_num n) (round (add base change)))
