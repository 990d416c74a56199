-- ===== src/Retry/Config.antt =====
-- The configuration of the retries, the `Retry-After` header and the delays.
use shared_ts_libs.Base.{
  ℕ, ◌-◌, Bool, true, not, ◌||◌, List, [], ◌∷◌, Option, none, some, String, str_eq, if◌then◌else◌,
}
use shared_ts_libs.Number.{Numbers, min_of, zero_num}

module _ (n : Numbers) where
  open n use {Num, of_nat, add, sub, mul, pow, lt, is_nan, is_integer}

  -- RetryConfig: every field may be left out or be undefined.
  pub record RetryConfig : Type 0 where
    pub max_retries : Option ℕ
    pub status_codes : Option (List ℕ)
    pub delay : Option (ℕ → Num)
    pub max_delay : Option Num
    pub max_jitter : Option Num
    pub respect_retry_after : Option Bool
    pub retry_on_network_error : Option Bool
    pub retry_on_timeout : Option Bool

  pub record ResolvedRetryConfig : Type 0 where
    pub max_retries : ℕ
    pub status_codes : List ℕ
    pub delay : ℕ → Num
    pub max_delay : Num
    pub max_jitter : Num
    pub respect_retry_after : Bool
    pub retry_on_network_error : Bool
    pub retry_on_timeout : Bool

  abbrev pub default_retry_config : ResolvedRetryConfig
  default_retry_config = record {
    max_retries = 2;
    status_codes = 408 ∷ 425 ∷ 429 ∷ 500 ∷ 502 ∷ 503 ∷ 504 ∷ [];
    delay = λ k. mul (of_nat 100) (pow (of_nat 2) (of_nat (k - 1)));
    max_delay = of_nat 30000;
    max_jitter = of_nat 100;
    respect_retry_after = true;
    retry_on_network_error = true;
    retry_on_timeout = true;
  }

abbrev pub or_default {ℓ} : {A : Type ℓ} → Option A → A → A
or_default none d = d
or_default (some a) d = a

module _ (n : Numbers) where
  open n use {Num, of_nat, add, sub, mul, lt, is_nan, is_integer}

  -- `none` is the shorthand `true`.
  unfoldable pub resolve_retry_config : Option (RetryConfig n) → ResolvedRetryConfig n
  resolve_retry_config none = default_retry_config n
  resolve_retry_config (some c) = record {
    max_retries = or_default c.max_retries (default_retry_config n).max_retries;
    status_codes = or_default c.status_codes (default_retry_config n).status_codes;
    delay = or_default c.delay (default_retry_config n).delay;
    max_delay = or_default c.max_delay (default_retry_config n).max_delay;
    max_jitter = or_default c.max_jitter (default_retry_config n).max_jitter;
    respect_retry_after =
        or_default c.respect_retry_after (default_retry_config n).respect_retry_after;
    retry_on_network_error =
        or_default c.retry_on_network_error (default_retry_config n).retry_on_network_error;
    retry_on_timeout = or_default c.retry_on_timeout (default_retry_config n).retry_on_timeout;
  }

  -- What the runtime makes of a header: `Number(s)`, `new Date(s).getTime()`, and `Date.now()`.
  pub record Clock : Type 0 where
    pub number_of : String → Num
    pub time_of : String → Num
    pub now : Num

-- `headers['retry-after']`
pub data Header : Type 0 where
  absent : Header
  single : String → Header
  several : List String → Header

first_value : Header → Option String
first_value absent = none
first_value (single s) = some s
first_value (several []) = none
first_value (several (s ∷ ss)) = some s

module _ (n : Numbers) where
  open n use {Num, of_nat, sub, mul, lt, is_nan, is_integer}

  seconds_to_delay : Num → Option Num
  seconds_to_delay seconds =
      if not (is_integer seconds) || lt seconds (zero_num n)
      then none
      else some (mul seconds (of_nat 1000))

  time_to_delay : Clock n → Num → Option Num
  time_to_delay clock time =
      if is_nan time
      then none
      else if lt (sub time clock.now) (zero_num n)
      then none
      else some (sub time clock.now)

  parse_value : Clock n → Option String → Option Num
  unfolding seconds_to_delay time_to_delay
  parse_value clock none = none
  parse_value clock (some s) =
      if str_eq s ""
      then none
      else if is_nan (clock.number_of s)
      then time_to_delay clock (clock.time_of s)
      else seconds_to_delay (clock.number_of s)

  unfoldable pub parse_retry_after_header : Clock n → Header → Option Num
  unfolding parse_value first_value
  parse_retry_after_header clock header = parse_value clock (first_value header)

module _ (n : Numbers) (random : n.Num) where
  open n use {Num, add, mul}

  -- `random` is the value of Math.random().
  unfoldable pub apply_jitter_and_cap : Num → ResolvedRetryConfig n → Num
  unfolding min_of
  apply_jitter_and_cap delay config =
      min_of n (add delay (mul random config.max_jitter)) config.max_delay

  unfoldable pub delay_after : Option Num → ℕ → ResolvedRetryConfig n → Num
  unfolding apply_jitter_and_cap
  delay_after none k config = apply_jitter_and_cap (config.delay k) config
  delay_after (some ms) k config = apply_jitter_and_cap ms config

  unfoldable pub compute_retry_delay : Clock n → Header → ℕ → ResolvedRetryConfig n → Num
  unfolding delay_after
  compute_retry_delay clock header k config =
      delay_after
        (if config.respect_retry_after then parse_retry_after_header n clock header else none) k
        config
