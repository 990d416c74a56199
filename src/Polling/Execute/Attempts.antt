-- ===== src/Polling/Execute/Attempts.antt =====
-- How often a strategy polls, how a run ends, and what its hooks hear.
use shared_ts_libs.Base.{
  ℕ, zero, suc, ◌+◌, ◌-◌, ◌≤◌, ◌<◌, true, ◌≡◌, refl, sym, ◌⊎◌, inl, inr, arith, List, [], ◌∷◌, ◌++◌,
  Bool-cases,
}
use mathlib.Core.Path.{subst}
use native.Mathlib.Decide.{dec_lt}
use shared_ts_libs.Number.{Numbers}
use shared_ts_libs.Polling.Backoff.{ExponentialBackoffConfig, calculate_delay}
use shared_ts_libs.Polling.Execute.{
  complete, incomplete, fails, timeout, cancelled, Event, polled, on_success, on_failure, Outcome,
  succeeds, polling_error, rejects, Run, Environment, Step, ends, continues, delay_rejects, proceed,
  attempt_step, loop, execute,
}

abbrev pub count_polls : {n : Numbers} → List (Event n) → ℕ
count_polls [] = 0
count_polls (polled k ∷ es) = suc (count_polls es)
count_polls (e ∷ es) = count_polls es

-- Calls of `onSuccess` and `onFailure`.
abbrev pub count_closings : {n : Numbers} → List (Event n) → ℕ
count_closings [] = 0
count_closings (on_success k ∷ es) = suc (count_closings es)
count_closings (on_failure cause k ∷ es) = suc (count_closings es)
count_closings (e ∷ es) = count_closings es

count_polls-append :
    {n : Numbers} (es rest : List (Event n))
    → count_polls (es ++ rest) ≡ count_polls es + count_polls rest
count_polls-append [] rest = omega arith
count_polls-append (polled k ∷ es) rest = omega (arith, count_polls-append es rest)
count_polls-append (e ∷ es) rest = count_polls-append es rest

count_closings-append :
    {n : Numbers} (es rest : List (Event n))
    → count_closings (es ++ rest) ≡ count_closings es + count_closings rest
count_closings-append [] rest = omega arith
count_closings-append (on_success k ∷ es) rest = omega (arith, count_closings-append es rest)
count_closings-append (on_failure cause k ∷ es) rest = omega (arith, count_closings-append es rest)
count_closings-append (e ∷ es) rest = count_closings-append es rest

-- One call of `onSuccess` or `onFailure`, but none where `pollFn` has thrown.
abbrev pub closings_of : {T E : Type 0} → Outcome T E → ℕ
closings_of (succeeds v) = 1
closings_of (polling_error cause made) = 1
closings_of (rejects e) = 0

pub Step-cases :
    {n : Numbers} {T E : Type 0} (o : Step n T E)
    → ((out : Outcome T E) × (es : List (Event n)) × (o ≡ ends out es))
      ⊎ ((es : List (Event n)) × (o ≡ continues es))
Step-cases (ends out es) = inl (out, es, refl)
Step-cases (continues es) = inr (es, refl)

module _ {n : Numbers} {T E : Type 0} (config : ExponentialBackoffConfig n) (max_attempts : ℕ)
    (env : Environment n T E) where
  -- What has ended a run that has polled `p` times.
  abbrev pub EndedBy : ℕ → Outcome T E → Type 0
  EndedBy p (succeeds v) = (1 ≤ p) × (env.poll p ≡ complete v)
  EndedBy p (rejects e) = (1 ≤ p) × (env.poll p ≡ fails e)
  EndedBy p (polling_error timeout made) = (p ≡ max_attempts) × (made ≡ max_attempts)
  EndedBy p (polling_error cancelled made) =
      (made ≡ p)
      × (((p ≡ 0) × (env.aborted 0 ≡ true))
          ⊎ (env.aborted (suc p) ≡ true)
          ⊎ ((1 ≤ p)
              × (delay_rejects n (calculate_delay n config (env.random p) (p - 1))
                    (env.aborted_in_delay p)
                  ≡ true)))

  step-ends :
      (j : ℕ) (o : Outcome T E) (es : List (Event n))
      → attempt_step config max_attempts env (suc j) ≡ ends o es
      → (count_polls es ≤ 1) × EndedBy (j + count_polls es) o × (count_closings es ≡ closings_of o)
  unfolding attempt_step
  step-ends j (succeeds v) es h = ground arith
  step-ends j (rejects e) es h = ground arith
  step-ends j (polling_error timeout made) es h = ground arith
  step-ends j (polling_error cancelled made) es h = ground arith

  step-continues :
      (k : ℕ) (es : List (Event n))
      → attempt_step config max_attempts env k ≡ continues es
      → (count_polls es ≡ 1) × (env.poll k ≡ incomplete) × (count_closings es ≡ 0)
  unfolding attempt_step
  step-continues k es h = ground arith

  -- A run from attempt `j + 1` on.
  pub record IsRun (j : ℕ) (run : Run n T E) : Type 0 where
    pub few : j + count_polls run.events ≤ max_attempts
    pub ended : EndedBy (j + count_polls run.events) run.outcome
    pub earlier : (i : ℕ) → j < i → i < j + count_polls run.events → env.poll i ≡ incomplete
    pub closed : count_closings run.events ≡ closings_of run.outcome

  module _ (j : ℕ) {es : List (Event n)} {run : Run n T E}
      (went_on : attempt_step config max_attempts env (suc j) ≡ continues es)
      (later : IsRun (suc j) run) where
    polls_before : j + count_polls (es ++ run.events) ≡ suc j + count_polls run.events
    polls_before =
        omega (arith, (step-continues (suc j) es went_on).0, count_polls-append es run.events)

    poll_before : (i : ℕ) → j < i → i < suc j + count_polls run.events → env.poll i ≡ incomplete
    poll_before i low high = elim (dec_lt (suc j) i) [
      | yes more ↦ later.earlier i more high
      | no same ↦
          let here : i ≡ suc j = omega arith in rw here (step-continues (suc j) es went_on).1
    ]

    IsRun-before : IsRun j (record { outcome = run.outcome; events = es ++ run.events })
    IsRun-before = record {
      few = rw polls_before later.few;
      ended = rw polls_before later.ended;
      earlier = λ i low high. poll_before i low (omega (arith, polls_before));
      closed = omega (
        arith,
        (step-continues (suc j) es went_on).2,
        count_closings-append es run.events,
        later.closed,
      );
    }

  loop-IsRun :
      (left j : ℕ) → j + left ≡ max_attempts → IsRun j (loop config max_attempts env left (suc j))
  unfolding loop
  loop-IsRun zero j h = record {
    few = omega arith;
    ended = (omega arith, refl);
    earlier = λ i low high. absurd (omega arith);
    closed = refl;
  }
  loop-IsRun (suc left) j h = elim (Step-cases (attempt_step config max_attempts env (suc j))) [
    | inl (out, es, e) ↦
        let (one, by, closed) = step-ends j out es e in
        subst (λ o. IsRun j (proceed o (loop config max_attempts env left (suc (suc j))))) (sym e)
          (record {
            few = omega arith;
            ended = by;
            earlier = λ i low high. absurd (omega arith);
            closed = closed;
          })
    | inr (es, e) ↦
        subst (λ o. IsRun j (proceed o (loop config max_attempts env left (suc (suc j))))) (sym e)
          (IsRun-before j e (loop-IsRun left (suc j) (omega arith)))
  ]

  -- `execute` polls at most `maxAttempts` times, and every poll but the last one was incomplete. It
  -- succeeds with the value of the last poll, rejects with what the last poll has thrown, times out
  -- after exactly `maxAttempts` polls, and is cancelled at an aborted signal or a rejected delay, with
  -- the number of its polls. Of `onSuccess` and `onFailure` exactly one is called, and once, but
  -- neither if `pollFn` has thrown.
  pub execute-IsRun : IsRun 0 (execute config max_attempts env)
  unfolding execute
  execute-IsRun = elim (Bool-cases (env.aborted 0)) [
    | inl stopped ↦ rw stopped (record {
      few = omega arith;
      ended = (refl, inl (refl, stopped));
      earlier = λ i low high. absurd (omega arith);
      closed = refl;
    })
    | inr free ↦ rw free (loop-IsRun max_attempts 0 (omega arith))
  ]
