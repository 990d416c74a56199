-- ===== src/Processor/Traced.antt =====
-- What a run of a job calls, whatever the called code answers.
use shared_ts_libs.Base.{
  ℕ, Bool, true, false, ◌&&◌, ◌≡◌, ◌≢◌, refl, sym, ap, ◌∙◌, arith, List, [], ◌∷◌, ◌++◌, Option,
  none, some, All, All-append, some_of, some_of-append, append_assoc, Bool-cases, inl, inr,
}
use shared_ts_libs.Processor.Failures.{Thrown, is_bullmq_control_flow_error}
use shared_ts_libs.Processor.Process.{
  BarrierResult, passes, holds, barrier_throws, Attempt, returns, throws, Answers, Event,
  transaction_starts, transaction_stops, barrier_called, process_called, progress, run_process,
  delay_result, after_barrier, ask_barrier, attempt, finish, job_attempt_error, process_internal,
}

abbrev pub IsInner : Event → Type 0
IsInner transaction_starts = ⊥
IsInner (transaction_stops s) = ⊥
IsInner other = Unit

abbrev pub is_process_called : Event → Bool
is_process_called process_called = true
is_process_called other = false

abbrev pub is_passing : Option BarrierResult → Bool
is_passing none = true
is_passing (some passes) = true
is_passing (some b) = false

-- The transaction failed where the run throws anything but BullMQ's control flow.
abbrev pub was_successful : {R : Type 0} → Attempt R → Bool
was_successful (returns r) = true
was_successful (throws e) = is_bullmq_control_flow_error e

IsInner-job_attempt_error : (e : Thrown) → IsInner (job_attempt_error e)
unfolding job_attempt_error
IsInner-job_attempt_error e = elim (Bool-cases (is_bullmq_control_flow_error e)) [
  | inl c ↦ rw c tt
  | inr c ↦ rw c tt
]

is_process_called-job_attempt_error : (e : Thrown) → is_process_called (job_attempt_error e) ≡ false
unfolding job_attempt_error
is_process_called-job_attempt_error e = elim (Bool-cases (is_bullmq_control_flow_error e)) [
  | inl c ↦ rw c refl
  | inr c ↦ rw c refl
]

-- What `finish` adds calls no code of the job.
some_of-finish :
    (events added : List Event)
    → some_of is_process_called added ≡ false
    → some_of is_process_called (events ++ added) ≡ some_of is_process_called events
some_of-finish events added none_added =
    ground (arith, some_of-append is_process_called events added, none_added)

module _ {D R : Type 0} (answers : Answers D R) (payload : D) where
  -- The job's code is called, with its data, exactly when the data is valid and no barrier holds it;
  -- what it returns is the result only where the progress could be updated.
  abbrev pub CallsProcess : Attempt R × List Event → Type 0
  CallsProcess run =
      (some_of is_process_called run.1 ≡ (answers.is_valid payload && is_passing answers.barrier))
      × ((r : R)
          → run.0 ≡ returns r
          → (answers.process payload ≡ returns r) × (answers.update_progress ≡ none))

  pub record IsTried (run : Attempt R × List Event) : Type 0 where
    pub calls : CallsProcess run
    pub inner : All IsInner run.1

  pub record IsTraced (run : Attempt R × List Event) : Type 0 where
    pub calls : CallsProcess run
    pub between : List Event
    pub inner : All IsInner between
    pub bounded :
        run.1 ≡ transaction_starts ∷ (between ++ transaction_stops (was_successful run.0) ∷ [])

  returned_progress :
      (x r : R) (u : Option Thrown) → progress answers x u ≡ returns r → (x ≡ r) × (u ≡ none)
  returned_progress x r none h = (cc, refl)
  returned_progress x r (some e) h = cc

  run_process-IsTried :
      (p : Attempt R)
      → answers.process payload ≡ p
      → (answers.is_valid payload && is_passing answers.barrier) ≡ true
      → IsTried (run_process answers p)
  run_process-IsTried (throws e) same free = record {
    calls = (sym free, λ r h. cc);
    inner = (tt, tt);
  }
  run_process-IsTried (returns x) same free = record {
    calls = (
      sym free,
      λ r h.
          let done = returned_progress x r answers.update_progress h in
          (same ∙ ap (λ y. returns y) done.0, done.1),
    );
    inner = (tt, (tt, tt));
  }

  after_barrier-IsTried :
      (now : ℕ) (b : BarrierResult)
      → answers.is_valid payload ≡ true
      → answers.barrier ≡ some b
      → IsTried (
        (after_barrier answers now payload b).0,
        barrier_called ∷ (after_barrier answers now payload b).1,
      )
  after_barrier-IsTried now passes valid asked =
      let run = run_process-IsTried (answers.process payload) refl (ground (arith, valid, asked)) in
      record { calls = run.calls; inner = (tt, run.inner) }
  after_barrier-IsTried now (holds delay) valid asked = record {
    calls =
        (ground (arith, valid, asked), λ r h. absurd (delayed_never answers.move_to_delayed r h));
    inner = (tt, (tt, tt));
  }
    where
      delayed_never : (m : Option Thrown) (r : R) → delay_result answers m ≢ returns r
      delayed_never none r h = cc
      delayed_never (some e) r h = cc
  after_barrier-IsTried now (barrier_throws e) valid asked = record {
    calls = (ground (arith, valid, asked), λ r h. cc);
    inner = (tt, tt);
  }

  ask_barrier-IsTried :
      (now : ℕ) (b : Option BarrierResult)
      → answers.is_valid payload ≡ true
      → answers.barrier ≡ b
      → IsTried (ask_barrier answers now payload b)
  ask_barrier-IsTried now none valid asked =
      run_process-IsTried (answers.process payload) refl (ground (arith, valid, asked))
  ask_barrier-IsTried now (some b) valid asked = after_barrier-IsTried now b valid asked

  attempt-IsTried : (now : ℕ) → IsTried (attempt answers now payload)
  attempt-IsTried now = elim (Bool-cases (answers.is_valid payload)) [
    | inr bad ↦ rw (bad, attempt) (record { calls = (rw bad refl, λ r h. cc); inner = tt })
    | inl good ↦ rw (good, attempt) (ask_barrier-IsTried now answers.barrier good refl)
  ]

  finish-IsTraced : (run : Attempt R × List Event) → IsTried run → IsTraced (finish answers run)
  finish-IsTraced (returns r, events) t = record {
    calls = (some_of-finish events (transaction_stops true ∷ []) refl ∙ t.calls.0, t.calls.1);
    between = events;
    inner = t.inner;
    bounded = refl;
  }
  finish-IsTraced (throws e, events) t = record {
    calls = (
      some_of-finish events
            (job_attempt_error e ∷ transaction_stops (is_bullmq_control_flow_error e) ∷ [])
            (rw (is_process_called-job_attempt_error e) refl)
          ∙ t.calls.0,
      λ r h. cc,
    );
    between = events ++ job_attempt_error e ∷ [];
    inner =
        All-append IsInner events (job_attempt_error e ∷ []) t.inner
          (IsInner-job_attempt_error e, tt);
    bounded =
        ap (λ es. transaction_starts ∷ es)
          (sym (
            append_assoc events (job_attempt_error e ∷ [])
              (transaction_stops (is_bullmq_control_flow_error e) ∷ [])));
  }

  -- Whatever the called code answers, the run of a job starts its transaction once, at first, and
  -- stops it once, at last, as successful exactly when the run returns or throws what BullMQ defers
  -- a job with; the job's code is called exactly when the data is valid and no barrier holds it; and
  -- a result is returned only where the job's code returned it and the progress was updated.
  pub process_internal-IsTraced : (now : ℕ) → IsTraced (process_internal answers now payload)
  unfolding process_internal
  process_internal-IsTraced now =
      finish-IsTraced (attempt answers now payload) (attempt-IsTried now)
