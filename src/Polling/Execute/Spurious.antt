-- ===== src/Polling/Execute/Spurious.antt =====
-- A delay that is no finite number, as 0 * Infinity makes it for a long backoff from 0 ms.
use shared_ts_libs.Base.{
  ℕ, zero, suc, ◌+◌, ◌-◌, ◌≤◌, ◌<◌, false, ◌≡◌, refl, ap, arith, [], ◌∷◌, lt→ltb, ◌∙◌,
}
use shared_ts_libs.Number.{Numbers}
use shared_ts_libs.Polling.Backoff.{ExponentialBackoffConfig, calculate_delay}
use shared_ts_libs.Polling.Execute.{
  incomplete, cancelled, polled, on_attempt, on_wait, on_failure, polling_error, Environment, ends,
  continues, delay_rejects, proceed, attempt_step, loop, execute,
}

module _ {n : Numbers} {T E : Type 0} (config : ExponentialBackoffConfig n) (max_attempts : ℕ)
    (env : Environment n T E) (k : ℕ) where
  -- The delay after attempt `i`.
  abbrev pub delay_at : ℕ → n.Num
  delay_at i = calculate_delay n config (env.random i) (i - 1)

  -- The signal is never aborted, the polls up to `k` are incomplete, the delays before the one after
  -- attempt `k` are accepted, and that one is not finite.
  pub record IsSpurious : Type 0 where
    pub not_last : (1 ≤ k) × (k < max_attempts)
    pub never_aborted : (i : ℕ) → env.aborted i ≡ false
    pub going : (i : ℕ) → i ≤ k → env.poll i ≡ incomplete
    pub accepted : (i : ℕ) → i < k → delay_rejects n (delay_at i) (env.aborted_in_delay i) ≡ false
    pub not_finite : n.is_finite (delay_at k) ≡ false

  module _ (h : IsSpurious) where
    step-continues :
        (i : ℕ)
        → i < k
        → attempt_step config max_attempts env i
          ≡ continues (polled i ∷ on_attempt i false ∷ on_wait i (delay_at i) ∷ [])
    unfolding attempt_step
    step-continues i lt = rw (h.never_aborted i) (
        rw (h.going i (omega arith))
          (rw (lt→ltb i max_attempts (omega (arith, h.not_last))) (rw (h.accepted i lt) refl)))

    step-cancels :
        attempt_step config max_attempts env k
        ≡ ends
            (polling_error cancelled k)
            (polled k ∷ on_attempt k false ∷ on_wait k (delay_at k) ∷ on_failure cancelled k ∷ [])
    unfolding attempt_step delay_rejects
    step-cancels = rw (h.never_aborted k) (
        rw (h.going k (omega arith))
          (rw (lt→ltb k max_attempts (omega (arith, h.not_last))) (rw h.not_finite refl)))

    loop-cancels :
        (steps left j : ℕ)
        → suc j + steps ≡ k
        → j + left ≡ max_attempts
        → (loop config max_attempts env left (suc j)).outcome ≡ polling_error cancelled k
    unfolding loop
    loop-cancels steps zero j hk hl = absurd (omega (arith, h.not_last))
    loop-cancels zero (suc left) j hk hl =
        let here : suc j ≡ k = omega arith in
        rw here
          (ap (λ o. (proceed o (loop config max_attempts env left (suc k))).outcome) step-cancels)
    loop-cancels (suc steps) (suc left) j hk hl =
        ap (λ o. (proceed o (loop config max_attempts env left (suc (suc j)))).outcome)
          (step-continues (suc j) (omega arith))
        ∙ loop-cancels steps left (suc j) (omega arith) (omega arith)

    -- Where the signal is never aborted, the polls up to an attempt `k` that is not the last one are
    -- incomplete, the delays before that after `k` are accepted and the one after `k` is not finite, the run
    -- fails as cancelled after attempt `k`.
    pub execute_spurious : (execute config max_attempts env).outcome ≡ polling_error cancelled k
    unfolding execute
    execute_spurious =
        rw (h.never_aborted 0)
          (loop-cancels (k - 1) max_attempts 0 (omega (arith, h.not_last)) (omega arith))
