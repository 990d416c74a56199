-- ===== src/Retry/Loop/Bounds.antt =====
-- How often `withRetry` calls, how long it waits, and which call it settles with.
use shared_ts_libs.Base.{
  ℕ, suc, ◌+◌, ◌-◌, ◌≤◌, ◌<◌, Bool, true, false, ◌≡◌, refl, arith, leb, List, [], ◌∷◌, ◌++◌, Option,
  none, some, ◌⊎◌, ap, ◌∙◌, All, All-append, sym,
}
use mathlib.Core.Path.{subst}
use native.Mathlib.Decide.{dec_lt}
use shared_ts_libs.Number.{Numbers, OrderLaws, gt, zero_num, min_of-le, Numbers}
use shared_ts_libs.Retry.Config.{
  ResolvedRetryConfig, apply_jitter_and_cap, compute_retry_delay, delay_after, Clock, Header,
}
use shared_ts_libs.Retry.Loop.{
  Environment, retry_after, Event, called, dumped, waits, Outcome, responds, throws, Settled,
  returned, thrown, Run, Round, settles, continues, round_of, may_retry, includes, with_retry,
}
use shared_ts_libs.Retry.Loop.Trace.{round_at, Trace, ends, goes_on, with_retry-Trace, not_last}

-- How many calls a list of events holds.
abbrev pub count_calls : {n : Numbers} → List (Event n) → ℕ
count_calls [] = 0
count_calls (called r ∷ es) = suc (count_calls es)
count_calls (dumped r ∷ es) = count_calls es
count_calls (waits r d ∷ es) = count_calls es

count_calls-append :
    {n : Numbers} (es rest : List (Event n))
    → count_calls (es ++ rest) ≡ count_calls es + count_calls rest
count_calls-append [] rest = omega arith
count_calls-append (called r ∷ es) rest = omega (arith, count_calls-append es rest)
count_calls-append (dumped r ∷ es) rest = count_calls-append es rest
count_calls-append (waits r d ∷ es) rest = count_calls-append es rest

abbrev pub events_of : {n : Numbers} → Round n → List (Event n)
events_of (settles s es) = es
events_of (continues es) = es

module _ {n : Numbers} (config : ResolvedRetryConfig n) (env : Environment n) where
  round_of-no_call :
      (r : ℕ) (last : Bool) (o : Outcome)
      → count_calls (events_of (round_of config env r last o)) ≡ 0
  unfolding round_of
  round_of-no_call r last (responds response) = ground arith
  round_of-no_call r last (throws e) = ground arith

  round-no_call : (r : ℕ) {o : Round n} → round_at config env r ≡ o → count_calls (events_of o) ≡ 0
  round-no_call r {o} e =
      ap (λ x. count_calls (events_of x)) (sym e) ∙ round_of-no_call r _ (env.call r)

  Trace-calls :
      {r : ℕ} {s : Settled} {es : List (Event n)}
      → Trace config env r s es
      → r ≤ config.max_retries
      → (1 ≤ count_calls es) × (r + count_calls es ≤ config.max_retries + 1)
  Trace-calls (ends {r} e) le = (omega arith, omega (arith, round-no_call r e))
  Trace-calls (goes_on {r} {es = es} {rest = rest} e t) le =
      let (some_calls, few) = Trace-calls t (not_last config env r es e) in
      (omega arith, omega (arith, few, round-no_call r e, count_calls-append es rest))

  -- What the call `k` that the run settles with has done.
  abbrev pub SettledBy : ℕ → Settled → Type 0
  SettledBy k (returned response) =
      (env.call k ≡ responds response)
      × ((k ≡ config.max_retries) ⊎ (includes response.status_code config.status_codes ≡ false))
  SettledBy k (thrown e) =
      ((env.call k ≡ throws e)
        × ((k ≡ config.max_retries) ⊎ (env.aborted k ≡ true) ⊎ (may_retry config env e ≡ false)))
      ⊎ (env.wait_rejects k ≡ some e)
      ⊎ (env.dump_rejects k ≡ some e)

  round_of-SettledBy :
      (r : ℕ) (o : Outcome) (s : Settled) (es : List (Event n))
      → env.call r ≡ o
      → r ≤ config.max_retries
      → round_of config env r (leb config.max_retries r) o ≡ settles s es
      → SettledBy r s
  unfolding round_of
  round_of-SettledBy r (responds response) (returned x) es c le h = ground arith
  round_of-SettledBy r (responds response) (thrown e) es c le h = ground arith
  round_of-SettledBy r (throws e) (returned x) es c le h = ground arith
  round_of-SettledBy r (throws e) (thrown x) es c le h = ground arith

  -- What a call that is retried has done.
  abbrev pub RetriedAfter : ℕ → Outcome → Type 0
  RetriedAfter k (responds response) = includes response.status_code config.status_codes ≡ true
  RetriedAfter k (throws e) = (env.aborted k ≡ false) × (may_retry config env e ≡ true)

  round_of-RetriedAfter :
      (r : ℕ) (last : Bool) (o : Outcome) (es : List (Event n))
      → round_of config env r last o ≡ continues es
      → RetriedAfter r o
  unfolding round_of
  round_of-RetriedAfter r last (responds response) es h = ground arith
  round_of-RetriedAfter r last (throws e) es h = ground arith

  Trace-SettledBy :
      {r : ℕ} {s : Settled} {es : List (Event n)}
      → Trace config env r s es
      → r ≤ config.max_retries
      → (k : ℕ) × (k + 1 ≡ r + count_calls es) × SettledBy k s
  Trace-SettledBy (ends {r} {s} {es} e) le =
      (r, omega (arith, round-no_call r e), round_of-SettledBy r (env.call r) s es refl le e)
  Trace-SettledBy (goes_on {r} {es = es} {rest = rest} e t) le =
      let (k, last, by) = Trace-SettledBy t (not_last config env r es e) in
      (k, omega (arith, last, round-no_call r e, count_calls-append es rest), by)

  Trace-RetriedAfter :
      {r : ℕ} {s : Settled} {es : List (Event n)}
      → Trace config env r s es
      → (k : ℕ) → r ≤ k
      → k + 1 < r + count_calls es
      → RetriedAfter k (env.call k)
  Trace-RetriedAfter (ends {r} e) k le lt = absurd (omega (arith, round-no_call r e))
  Trace-RetriedAfter (goes_on {r} {es = es} {rest = rest} e t) k le lt = elim (dec_lt r k) [
    | yes later ↦
        Trace-RetriedAfter t k later (omega (arith, round-no_call r e, count_calls-append es rest))
    | no here ↦
        let same : k ≡ r = omega arith in rw same (round_of-RetriedAfter r _ (env.call r) es e)
  ]

  -- `withRetry` settles after one call at least and after as many retries at most as the
  -- configuration allows. It settles with the last call: with its response, which is no longer
  -- retried or has a status that is not in the list; or with what this call has thrown, if it is
  -- the last attempt, the signal is aborted or errors of its kind are not retried; or with the
  -- rejection of the wait or of the body's consumption after it.
  pub with_retry-settles :
      (run : Run n) × (with_retry config env ≡ some run)
      × (1 ≤ count_calls run.events)
      × (count_calls run.events ≤ config.max_retries + 1)
      × SettledBy (count_calls run.events - 1) run.settled
  with_retry-settles =
      let (run, found, t) = with_retry-Trace config env in
      let (some_calls, few) = Trace-calls t (omega arith) in
      let (k, last, by) = Trace-SettledBy t (omega arith) in
      let same : count_calls run.events - 1 ≡ k = omega arith in
      (run, found, some_calls, omega arith, rw same by)

  -- Each call but the last one has responded with a status of the list, or has thrown an error of a
  -- kind that is retried while the signal was not aborted.
  pub with_retry-retried :
      (run : Run n) × (with_retry config env ≡ some run)
      × ((k : ℕ) → k + 1 < count_calls run.events → RetriedAfter k (env.call k))
  with_retry-retried =
      let (run, found, t) = with_retry-Trace config env in
      (run, found, λ k lt. Trace-RetriedAfter t k (omega arith) (omega arith))

-- A wait is for more than 0 and for no more than `maxDelay`.
module _ {n : Numbers} (config : ResolvedRetryConfig n) where
  abbrev pub IsCapped : Event n → Type 0
  IsCapped (waits k d) = (gt n d (zero_num n) ≡ true) × (gt n d config.max_delay ≡ false)
  IsCapped (called k) = Unit
  IsCapped (dumped k) = Unit

module _ {n : Numbers} (laws : OrderLaws n) (config : ResolvedRetryConfig n)
    (env : Environment n) where
  apply_jitter_and_cap-le :
      (random d : n.Num)
      → gt n (apply_jitter_and_cap n random d config) (zero_num n) ≡ true
      → gt n (apply_jitter_and_cap n random d config) config.max_delay ≡ false
  unfolding apply_jitter_and_cap
  apply_jitter_and_cap-le random d h = min_of-le n laws _ config.max_delay (zero_num n) h

  delay_after-le :
      (random : n.Num) (o : Option n.Num) (k : ℕ)
      → gt n (delay_after n random o k config) (zero_num n) ≡ true
      → gt n (delay_after n random o k config) config.max_delay ≡ false
  unfolding delay_after
  delay_after-le random none k h = apply_jitter_and_cap-le random (config.delay k) h
  delay_after-le random (some ms) k h = apply_jitter_and_cap-le random ms h

  compute_retry_delay-le :
      (random : n.Num) (clock : Clock n) (header : Header) (k : ℕ)
      → gt n (compute_retry_delay n random clock header k config) (zero_num n) ≡ true
      → gt n (compute_retry_delay n random clock header k config) config.max_delay ≡ false
  unfolding compute_retry_delay
  compute_retry_delay-le random clock header k h = delay_after-le random _ k h

  round_of-IsCapped :
      (r : ℕ) (last : Bool) (o : Outcome)
      → All (IsCapped config) (events_of (round_of config env r last o))
  unfolding round_of
  round_of-IsCapped r last (responds response) =
      ground
        (arith, compute_retry_delay-le (env.random r) (env.clock r) (retry_after response) (suc r))
  round_of-IsCapped r last (throws e) =
      ground (arith, apply_jitter_and_cap-le (env.random r) (config.delay (suc r)))

  Trace-IsCapped :
      {r : ℕ} {s : Settled} {es : List (Event n)}
      → Trace config env r s es
      → All (IsCapped config) es
  Trace-IsCapped (ends {r} e) =
      (tt, subst (λ o. All (IsCapped config) (events_of o)) e (round_of-IsCapped r _ (env.call r)))
  Trace-IsCapped (goes_on {r} {es = es} {rest = rest} e t) = (
    tt,
    All-append (IsCapped config) es rest
        (subst (λ o. All (IsCapped config) (events_of o)) e (round_of-IsCapped r _ (env.call r)))
        (Trace-IsCapped t),
  )

  -- Every wait of `withRetry`, after an error, a status or a `Retry-After` header, is for more than
  -- 0 and for no more than `maxDelay`, whatever the jitter.
  pub with_retry-IsCapped :
      (run : Run n) × (with_retry config env ≡ some run) × All (IsCapped config) run.events
  with_retry-IsCapped =
      let (run, found, t) = with_retry-Trace config env in (run, found, Trace-IsCapped t)
