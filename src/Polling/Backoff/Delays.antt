-- ===== src/Polling/Backoff/Delays.antt =====
-- The delays of a strategy whose configuration passed the checks.
use shared_ts_libs.Base.{ℕ, false, ◌≡◌, none, arith}
use shared_ts_libs.Number.{Numbers, OrderLaws, gt, min_of, max_of, zero_num}
use shared_ts_libs.Polling.Backoff.{ExponentialBackoffConfig, validate_config, calculate_delay}

module _ {n : Numbers} (laws : OrderLaws n) where
  max_of-ge : (a b : n.Num) → n.lt (max_of n a b) a ≡ false
  unfolding max_of
  max_of-ge a b = ground (arith, laws.lt_irrefl a, laws.lt_asymm a b, laws.nan_lt b a)

  -- Between a lower bound `z` of `a` and `a`.
  clamped :
      (a z x : n.Num)
      → n.lt a z ≡ false
      → (n.lt a (min_of n a (max_of n z x)) ≡ false) × (n.lt (min_of n a (max_of n z x)) z ≡ false)
  unfolding min_of
  clamped a z x h = ground (
    arith,
    laws.lt_irrefl a,
    laws.lt_asymm (max_of n z x) a,
    max_of-ge z x,
    laws.lt_nan a (max_of n z x),
  )

  -- With a configuration that passed the checks, a delay is never above `maxDelayMs` and never
  -- below 0, whatever the attempt and the jitter.
  pub calculate_delay_bounds :
      (c : ExponentialBackoffConfig n) (random : n.Num) (index : ℕ)
      → validate_config n c ≡ none
      → (gt n (calculate_delay n c random index) c.max_delay_ms ≡ false)
        × (n.lt (calculate_delay n c random index) (zero_num n) ≡ false)
  unfolding calculate_delay validate_config
  calculate_delay_bounds c random index h = clamped c.max_delay_ms (zero_num n) _ (ground arith)
