-- ===== src/Periodic/Exclusive.antt =====
-- Two consumers of a periodic job, over locks that are lawful.
use shared_ts_libs.Base.{
  ◌≤◌, Bool, true, false, ◌≡◌, ◌≢◌, refl, arith, List, Option, none, some, String, str_eq,
  Bool-cases, inl, inr, ◌⊎◌, ◌∙◌, sym, ap,
}
use mathlib.Core.Option.{some_inj}
use mathlib.Core.Path.{subst}
use shared_ts_libs.Periodic.Config.{JobOptions, job_lock_name}
use shared_ts_libs.Periodic.Process.{
  Lock, Locks, Thrown, Event, fresh_lock, acquire_again, acquire_fresh, try_acquire_exclusive_lock,
  updated_lock, released, execute, with_lock, process, work_events,
}
use shared_ts_libs.Periodic.Runs.{count_works, HasNotWorked}

-- Who holds the lock of a name. A lock is acquired only if nobody holds it, or by its own holder, who says
-- that the lock is acquired already; it is then held. A lock that is refused stays as it was. Where the
-- answer is a rejection, either has happened.
module _ (locks : Locks) (holder : locks.State → String → Option String) where
  abbrev pub Takes : Lock → locks.State → locks.State → Type 0
  Takes l s s' =
      ((holder s l.name ≡ none)
        ⊎ ((l.acquired_externally ≡ true) × (holder s l.name ≡ some l.identifier)))
      × (holder s' l.name ≡ some l.identifier)

  abbrev pub Keeps : Lock → locks.State → locks.State → Type 0
  Keeps l s s' = holder s' l.name ≡ holder s l.name

  pub record IsLawful : Type 0 where
    pub acquired :
        (l : Lock) (s s' : locks.State) → locks.try_acquire l s ≡ (some true, s') → Takes l s s'
    pub refused :
        (l : Lock) (s s' : locks.State) → locks.try_acquire l s ≡ (some false, s') → Keeps l s s'
    pub rejected :
        (l : Lock) (s s' : locks.State)
        → locks.try_acquire l s ≡ (none, s')
        → Keeps l s s' ⊎ Takes l s s'

module _ (locks : Locks) (holder : locks.State → String → Option String)
    (lawful : IsLawful locks holder) (o : JobOptions) where
  open locks use {State, try_acquire}

  abbrev pub held : State → Option String
  held s = holder s (job_lock_name o)

  abbrev IsRefused : String → State → Option (Option Lock) × State → Type 0
  IsRefused other s (none, s') = held s' ≡ some other
  IsRefused other s (some none, s') = held s' ≡ some other
  IsRefused other s (some (some lock), s') = ⊥

  -- A lock that another consumer holds is not taken.
  other-kept :
      (lock : Lock) (other : String) (s s' : State)
      → lock.name ≡ job_lock_name o
      → other ≢ lock.identifier
      → held s ≡ some other
      → Keeps locks holder lock s s' ⊎ Takes locks holder lock s s'
      → held s' ≡ some other
  other-kept lock other s s' n d h (inl same) =
      subst (λ k. holder s' k ≡ some other) n (same ∙ ap (holder s) n ∙ h)
  other-kept lock other s s' n d h (inr (inl free, now)) =
      absurd (ground (arith, sym free ∙ ap (holder s) n ∙ h))
  other-kept lock other s s' n d h (inr (inr (external, own), now)) =
      absurd (d (some_inj.0 (sym h ∙ sym (ap (holder s) n) ∙ own)))

  -- A lock that the executor holds stays the executor's.
  own-kept :
      (lock : Lock) (executor : String) (s s' : State)
      → lock.name ≡ job_lock_name o
      → lock.identifier ≡ executor
      → held s ≡ some executor
      → Keeps locks holder lock s s' ⊎ Takes locks holder lock s s'
      → held s' ≡ some executor
  own-kept lock executor s s' n i h (inl same) =
      subst (λ k. holder s' k ≡ some executor) n (same ∙ ap (holder s) n ∙ h)
  own-kept lock executor s s' n i h (inr takes) =
      ap (holder s') (sym n) ∙ takes.1 ∙ ap (λ (x : String). some x) i

  again-IsRefused :
      (lock : Lock) (other : String) (s : State) (answer : Option Bool × State)
      → lock.name ≡ job_lock_name o
      → other ≢ lock.identifier
      → held s ≡ some other
      → try_acquire lock s ≡ answer
      → IsRefused other s (acquire_again locks o lock answer)
  unfolding acquire_again
  again-IsRefused lock other s (none, s') n d h e =
      other-kept lock other s s' n d h (lawful.rejected lock s s' e)
  again-IsRefused lock other s (some false, s') n d h e =
      other-kept lock other s s' n d h (inl (lawful.refused lock s s' e))
  again-IsRefused lock other s (some true, s') n d h e = elim (lawful.acquired lock s s' e).0 [
    | inl free ↦ absurd (ground (arith, sym free ∙ ap (holder s) n ∙ h))
    | inr (external, own) ↦ d (some_inj.0 (sym h ∙ sym (ap (holder s) n) ∙ own))
  ]

  fresh-IsRefused :
      (executor other : String) (s : State) (answer : Option Bool × State)
      → other ≢ executor
      → held s ≡ some other
      → try_acquire (fresh_lock o executor) s ≡ answer
      → IsRefused other s (acquire_fresh locks o (fresh_lock o executor) answer)
  unfolding acquire_fresh fresh_lock
  fresh-IsRefused executor other s (none, s') d h e =
      other-kept (fresh_lock o executor) other s s' refl d h
        (lawful.rejected (fresh_lock o executor) s s' e)
  fresh-IsRefused executor other s (some true, s') d h e =
      elim (lawful.acquired (fresh_lock o executor) s s' e).0 [
        | inl free ↦ absurd (ground (arith, sym free ∙ h))
        | inr (external, own) ↦ absurd (ground (arith, external))
      ]
  fresh-IsRefused executor other s (some false, s') d h e =
      let still = lawful.refused (fresh_lock o executor) s s' e ∙ h in
      elim (Bool-cases (str_eq executor "")) [
        | inl empty ↦ rw (empty, acquire_fresh) still
        | inr full ↦
            rw (full, acquire_fresh)
              (again-IsRefused (record (fresh_lock o executor) { acquired_externally = true }) other
                s' (try_acquire (record (fresh_lock o executor) { acquired_externally = true }) s')
                refl d still refl)
      ]

  refused-skips :
      (thrown : Option Thrown) (earlier : Option Lock) (other : String) (s : State)
      (answer : Option (Option Lock) × State)
      → IsRefused other s answer
      → HasNotWorked (with_lock locks o thrown earlier answer).events
        × (held (with_lock locks o thrown earlier answer).state ≡ some other)
  unfolding with_lock
  refused-skips thrown earlier other s (none, s') r = (inl refl, r)
  refused-skips thrown earlier other s (some none, s') r = (inr refl, r)
  refused-skips thrown earlier other s (some (some lock), s') r = absurd r

  -- Another consumer's execution does not work, and leaves the lock to its holder.
  process-refused :
      o.enabled ≡ true
      → (thrown : Option Thrown) (executor other : String) (earlier : Option Lock) (s : State)
      → other ≢ executor
      → held s ≡ some other
      → HasNotWorked (process locks o thrown executor earlier s).events
        × (held (process locks o thrown executor earlier s).state ≡ some other)
  unfolding process try_acquire_exclusive_lock
  process-refused enabled thrown executor other earlier s d h =
      rw (enabled, process)
        (refused-skips thrown earlier other s _ (fresh-IsRefused executor other s _ d h refl))

  -- A lock that is acquired is the executor's.
  abbrev IsAcquired : String → Option (Option Lock) × State → Type 0
  IsAcquired executor (some (some lock), s') =
      (lock.name ≡ job_lock_name o) × (lock.identifier ≡ executor) × (held s' ≡ some executor)
  IsAcquired executor (none, s') = Unit
  IsAcquired executor (some none, s') = Unit

  again-IsAcquired :
      (executor : String) (lock : Lock) (s : State) (answer : Option Bool × State)
      → lock.name ≡ job_lock_name o
      → lock.identifier ≡ executor
      → try_acquire lock s ≡ answer
      → IsAcquired executor (acquire_again locks o lock answer)
  unfolding acquire_again
  again-IsAcquired executor lock s (none, s') n i e = tt
  again-IsAcquired executor lock s (some false, s') n i e = tt
  again-IsAcquired executor lock s (some true, s') n i e = (
    n,
    i,
    ap (holder s') (sym n) ∙ (lawful.acquired lock s s' e).1 ∙ ap (λ (x : String). some x) i,
  )

  fresh-IsAcquired :
      (executor : String) (s : State) (answer : Option Bool × State)
      → try_acquire (fresh_lock o executor) s ≡ answer
      → IsAcquired executor (acquire_fresh locks o (fresh_lock o executor) answer)
  unfolding acquire_fresh fresh_lock
  fresh-IsAcquired executor s (none, s') e = tt
  fresh-IsAcquired executor s (some true, s') e =
      (refl, refl, (lawful.acquired (fresh_lock o executor) s s' e).1)
  fresh-IsAcquired executor s (some false, s') e = elim (Bool-cases (str_eq executor "")) [
    | inl empty ↦ rw (empty, acquire_fresh) tt
    | inr full ↦
        rw (full, acquire_fresh)
          (again-IsAcquired executor (record (fresh_lock o executor) { acquired_externally = true })
            s' (try_acquire (record (fresh_lock o executor) { acquired_externally = true }) s') refl
            refl refl)
  ]

  -- The update after the work leaves the lock to the executor.
  released-held :
      (thrown : Option Thrown) (executor : String) (before : List Event) (lock own : Lock)
      (s : State) (answer : Option Bool × State)
      → own.name ≡ job_lock_name o
      → own.identifier ≡ executor
      → held s ≡ some executor
      → try_acquire own s ≡ answer
      → held (released locks o thrown before lock answer).state ≡ some executor
  unfolding released
  released-held thrown executor before lock own s (none, s') n i h e =
      own-kept own executor s s' n i h (lawful.rejected own s s' e)
  released-held thrown executor before lock own s (some false, s') n i h e =
      own-kept own executor s s' n i h (inl (lawful.refused own s s' e))
  released-held thrown executor before lock own s (some true, s') n i h e =
      own-kept own executor s s' n i h (inr (lawful.acquired own s s' e))

  worked-held :
      (thrown : Option Thrown) (executor : String) (earlier : Option Lock)
      (answer : Option (Option Lock) × State)
      → IsAcquired executor answer
      → 1 ≤ count_works (with_lock locks o thrown earlier answer).events
      → held (with_lock locks o thrown earlier answer).state ≡ some executor
  unfolding with_lock execute
  worked-held thrown executor earlier (none, s') a w = absurd (omega arith)
  worked-held thrown executor earlier (some none, s') a w = absurd (omega arith)
  worked-held thrown executor earlier (some (some lock), s') a w =
      released-held thrown executor (work_events o thrown) lock (updated_lock locks o lock) s' _ a.0
        a.1 a.2 refl

  process-held :
      o.enabled ≡ true
      → (thrown : Option Thrown) (executor : String) (earlier : Option Lock) (s : State)
      → 1 ≤ count_works (process locks o thrown executor earlier s).events
      → held (process locks o thrown executor earlier s).state ≡ some executor
  unfolding process try_acquire_exclusive_lock
  process-held enabled thrown executor earlier s w =
      rw (enabled, process)
        (worked-held thrown executor earlier _ (fresh-IsAcquired executor s _ refl)
          (rw (enabled, process) at w))

  -- Over lawful locks, a job that is kept to a single consumer and has worked for one consumer does not
  -- work for another one that comes next, whatever either throws: the lock is still the first one's, also
  -- after the second has tried.
  pub process-IsExclusive :
      o.enabled ≡ true
      → (first second : Option Thrown) (executor other : String) (earlier lock : Option Lock)
        (s : State)
      → executor ≢ other
      → 1 ≤ count_works (process locks o first executor earlier s).events
      → HasNotWorked
          (process locks o second other lock
            (process locks o first executor earlier s).state).events
        × (held
              (process locks o second other lock
                (process locks o first executor earlier s).state).state
            ≡ some executor)
  process-IsExclusive enabled first second executor other earlier lock s d w =
      process-refused enabled second other executor lock _ d
        (process-held enabled first executor earlier s w)
