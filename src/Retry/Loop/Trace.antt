-- ===== src/Retry/Loop/Trace.antt =====
-- The runs of `withRetry` as a relation, and that the loop ends within its fuel.
use shared_ts_libs.Base.{
  ℕ, zero, suc, ◌+◌, ◌≤◌, ◌<◌, true, ◌≡◌, ◌≢◌, refl, arith, leb, List, ◌∷◌, ◌++◌, some, ◌⊎◌, inl,
  inr, ap, ◌∙◌, Bool-cases,
}
use shared_ts_libs.Number.{Numbers}
use shared_ts_libs.Retry.Config.{ResolvedRetryConfig}
use shared_ts_libs.Retry.Loop.{
  Environment, Event, called, Outcome, responds, throws, Settled, Run, Round, settles, continues,
  after, proceed, round_of, loop, with_retry,
}

pub Round-cases :
    {n : Numbers} (o : Round n)
    → ((s : Settled) × (es : List (Event n)) × (o ≡ settles s es))
      ⊎ ((es : List (Event n)) × (o ≡ continues es))
Round-cases (settles s es) = inl (s, es, refl)
Round-cases (continues es) = inr (es, refl)

module _ {n : Numbers} (config : ResolvedRetryConfig n) (env : Environment n) where
  abbrev pub round_at : ℕ → Round n
  round_at r = round_of config env r (leb config.max_retries r) (env.call r)

  -- A run from round `r` on: it settles in this round, or goes on after it.
  pub data Trace : ℕ → Settled → List (Event n) → Type 0 where
    ends :
        {r : ℕ} {s : Settled} {es : List (Event n)}
        → round_at r ≡ settles s es
        → Trace r s (called r ∷ es)
    goes_on :
        {r : ℕ} {s : Settled} {es rest : List (Event n)}
        → round_at r ≡ continues es
        → Trace (suc r) s rest
        → Trace r s (called r ∷ es ++ rest)

  -- The last attempt settles the run.
  last_settles :
      (r : ℕ) (o : Outcome) (es : List (Event n)) → round_of config env r true o ≢ continues es
  unfolding round_of
  last_settles r (responds response) es h = cc
  last_settles r (throws e) es h = cc

  pub not_last : (r : ℕ) (es : List (Event n)) → round_at r ≡ continues es → r < config.max_retries
  not_last r es h = elim (Bool-cases (leb config.max_retries r)) [
    | inl last ↦ absurd (last_settles r (env.call r) es (rw last at h))
    | inr more ↦ ground arith
  ]

  -- With a fuel that reaches past the last retry the loop ends, in a run of the relation.
  loop-Trace :
      (fuel r : ℕ)
      → config.max_retries < r + fuel
      → r ≤ config.max_retries
      → (run : Run n) × (loop config env fuel r ≡ some run) × Trace r run.settled run.events
  unfolding loop
  loop-Trace zero r h le = absurd (omega arith)
  loop-Trace (suc fuel) r h le = elim (Round-cases (round_at r)) [
    | inl (s, es, e) ↦ (
      record { settled = s; events = called r ∷ es },
      ap (λ o. proceed r o (loop config env fuel (suc r))) e,
      ends e,
    )
    | inr (es, e) ↦
        let lt : r < config.max_retries = not_last r es e in
        let (run, found, t) = loop-Trace fuel (suc r) (omega arith) (omega arith) in
        (
          record { settled = run.settled; events = called r ∷ es ++ run.events },
          ap (λ o. proceed r o (loop config env fuel (suc r))) e ∙ ap (after (called r ∷ es)) found,
          goes_on e t,
        )
  ]

  -- `withRetry` settles for every configuration and environment.
  pub with_retry-Trace :
      (run : Run n) × (with_retry config env ≡ some run) × Trace 0 run.settled run.events
  unfolding with_retry
  with_retry-Trace = loop-Trace (suc config.max_retries) 0 (omega arith) (omega arith)
