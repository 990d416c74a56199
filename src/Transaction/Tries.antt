-- ===== src/Transaction/Tries.antt =====
-- How often a transaction is tried, with which timeouts and waits, and which try it ends with.
use shared_ts_libs.Base.{
  ℕ, zero, suc, ◌+◌, ◌-◌, ◌≤◌, ◌<◌, ◌≡◌, ◌≢◌, refl, ◌⊎◌, inl, inr, arith, List, [], ◌∷◌, ◌++◌, All,
  All-append, Bool,
}
use native.Mathlib.Decide.{dec_lt}
use shared_ts_libs.Transaction.{
  Tried, RetryAllowed, refused, allowed, increase_timeout, Options, OptionsWithDefaults,
  with_defaults, calculate_retry_delay, Event, waits, tries, Run, verdict, next_timeout,
  round_events, proceed, loop, prisma_transaction,
}

abbrev pub count_tries : List Event → ℕ
count_tries [] = 0
count_tries (waits ms ∷ es) = count_tries es
count_tries (tries t ∷ es) = suc (count_tries es)

count_tries-append :
    (es rest : List Event) → count_tries (es ++ rest) ≡ count_tries es + count_tries rest
count_tries-append [] rest = omega arith
count_tries-append (waits ms ∷ es) rest = count_tries-append es rest
count_tries-append (tries t ∷ es) rest = omega (arith, count_tries-append es rest)

module _ {T : Type 0} (truthy : T → Bool) (o : OptionsWithDefaults)
    (attempt : ℕ → ℕ → Tried T) where
  -- The timeout of a try, and what the try comes to.
  abbrev pub timeout_at : ℕ → ℕ
  timeout_at zero = o.timeout
  timeout_at (suc k) = next_timeout o (verdict truthy o (attempt k (timeout_at k))) (timeout_at k)

  abbrev pub tried_at : ℕ → Tried T
  tried_at k = attempt k (timeout_at k)

  -- A wait within its limit, and a timeout between that of the first try and the largest one.
  abbrev pub IsWithin : Event → Type 0
  IsWithin (waits ms) = ms ≤ o.max_retry_delay_ms
  IsWithin (tries t) = o.timeout ≤ o.max_timeout → (o.timeout ≤ t) × (t ≤ o.max_timeout)

  -- A run from try `r` on.
  pub record IsRun (r : ℕ) (run : Run T) : Type 0 where
    pub some_tries : 1 ≤ count_tries run.events
    pub few_tries : r + count_tries run.events ≤ o.retries_allowed + 1
    pub result_of_last : run.result ≡ tried_at (r + count_tries run.events - 1)
    pub over :
        (r + count_tries run.events ≡ o.retries_allowed + 1)
        ⊎ (verdict truthy o run.result ≡ refused)
    pub retried :
        (k : ℕ)
        → r ≤ k
        → k + 1 < r + count_tries run.events
        → verdict truthy o (tried_at k) ≢ refused
    pub within : All IsWithin run.events

  timeout_at-IsWithin : (k : ℕ) → IsWithin (tries (timeout_at k))
  unfolding next_timeout
  timeout_at-IsWithin zero h = (omega arith, h)
  timeout_at-IsWithin (suc k) h = ground (arith, timeout_at-IsWithin k)

  delay_capped :
      (r : ℕ)
      → calculate_retry_delay (suc r) o.base_retry_delay_ms o.max_retry_delay_ms
        ≤ o.max_retry_delay_ms
  unfolding calculate_retry_delay
  delay_capped r = omega arith

  round_events-IsWithin : (r : ℕ) → All IsWithin (round_events o r (timeout_at r))
  unfolding round_events
  round_events-IsWithin zero = (timeout_at-IsWithin 0, tt)
  round_events-IsWithin (suc r) = (delay_capped r, (timeout_at-IsWithin (suc r), tt))

  count_tries-round_events : (r t : ℕ) → count_tries (round_events o r t) ≡ 1
  unfolding round_events
  count_tries-round_events zero t = refl
  count_tries-round_events (suc r) t = refl

  -- A run that ends with try `r`.
  IsRun-last :
      (r : ℕ)
      → r ≤ o.retries_allowed
      → (r ≡ o.retries_allowed) ⊎ (verdict truthy o (tried_at r) ≡ refused)
      → IsRun r (record { result = tried_at r; events = round_events o r (timeout_at r) })
  IsRun-last r le h =
      let one = count_tries-round_events r (timeout_at r) in
      let here : r + count_tries (round_events o r (timeout_at r)) - 1 ≡ r = omega arith in
      record {
        some_tries = omega arith;
        few_tries = omega arith;
        result_of_last = rw here refl;
        over = elim h [ inl e ↦ inl (omega arith) | inr e ↦ inr e ];
        retried = λ k low high. absurd (omega arith);
        within = round_events-IsWithin r;
      }

  module _ (r : ℕ) {run : Run T} (went_on : verdict truthy o (tried_at r) ≢ refused)
      (later : IsRun (suc r) run) where
    tries_before :
        r + count_tries (round_events o r (timeout_at r) ++ run.events)
        ≡ suc r + count_tries run.events
    tries_before = omega (
      arith,
      count_tries-round_events r (timeout_at r),
      count_tries-append (round_events o r (timeout_at r)) run.events,
    )

    retried_before :
        (k : ℕ)
        → r ≤ k
        → k + 1 < suc r + count_tries run.events
        → verdict truthy o (tried_at k) ≢ refused
    retried_before k low high = elim (dec_lt r k) [
      | yes more ↦ later.retried k more high
      | no same ↦ let here : k ≡ r = omega arith in rw here went_on
    ]

    IsRun-before :
        IsRun r
          (record { result = run.result; events = round_events o r (timeout_at r) ++ run.events })
    IsRun-before = record {
      some_tries = omega (arith, tries_before, later.some_tries);
      few_tries = rw tries_before later.few_tries;
      result_of_last = rw tries_before later.result_of_last;
      over = rw tries_before later.over;
      retried = λ k low high. retried_before k low (omega (arith, tries_before));
      within = All-append IsWithin _ run.events (round_events-IsWithin r) later.within;
    }

  proceed-IsRun :
      (r : ℕ) (v : RetryAllowed) {run : Run T}
      → verdict truthy o (tried_at r) ≡ v
      → r ≤ o.retries_allowed
      → IsRun (suc r) run
      → IsRun r (proceed v (round_events o r (timeout_at r)) (tried_at r) run)
  proceed-IsRun r refused e le later = IsRun-last r le (inr e)
  proceed-IsRun r allowed e le later = IsRun-before r (λ f. cc) later
  proceed-IsRun r increase_timeout e le later = IsRun-before r (λ f. cc) later

  loop-IsRun :
      (left r : ℕ)
      → r + left ≡ o.retries_allowed
      → IsRun r (loop truthy o attempt left r (timeout_at r))
  unfolding loop
  loop-IsRun zero r h = IsRun-last r (omega arith) (inl (omega arith))
  loop-IsRun (suc left) r h =
      proceed-IsRun r (verdict truthy o (tried_at r)) refl (omega arith)
        (loop-IsRun left (suc r) (omega arith))

-- `prismaTransaction` tries the transaction once at least and as often at most as the retries allow
-- and once more. Its result is that of the last try, which is not retried unless no retry is left;
-- each earlier try failed with an error that is retried. No wait is above `maxRetryDelayMs`, and, if
-- `timeout` is not above `maxTimeout`, each try has a timeout between these two.
pub prisma_transaction-IsRun :
    {T : Type 0} (truthy : T → Bool) (options : Options) (attempt : ℕ → ℕ → Tried T)
    → IsRun truthy (with_defaults options) attempt 0 (prisma_transaction truthy options attempt)
unfolding prisma_transaction
prisma_transaction-IsRun truthy options attempt =
    let o = with_defaults options in loop-IsRun truthy o attempt o.retries_allowed 0 (omega arith)
