-- ===== src/Baseline/Recorded.antt =====
-- What a run leaves in the tracking table, whether it returns or is cut off by a rejected statement.
use shared_ts_libs.Base.{
  ℕ, suc, ◌+◌, ◌≤◌, true, false, ◌≡◌, ◌≢◌, refl, ap, sym, ◌∙◌, arith, List, [], ◌∷◌, ◌++◌, map,
  append_assoc, append-nil, Option, none, some, String, contains, add, length, take, Bool-cases,
  inl, inr,
}
use mathlib.Core.Path.{subst}
use shared_ts_libs.Baseline.Sql.{Dialect, insert_row}
use shared_ts_libs.Baseline.Database.{
  Row, QueryResult, Executed, done, rejected, Database, names_of, IsLawful,
}
use shared_ts_libs.Baseline.Mark.{
  MigrationEntry, Finished, returns, unsupported_dialect, throws, and_then, and_tolerate, is_given,
  recorded_names, already_exists, insert_missing,
}

-- The tags that a set of names lacks.
abbrev pub missing : List String → List MigrationEntry → List String
missing recorded [] = []
missing recorded (e ∷ es) = elim (contains e.tag recorded) [
  | true ↦ missing recorded es
  | false ↦ e.tag ∷ missing recorded es
]

-- The set that the names of the table make.
abbrev pub name_set : List String → List (Option String) → List String
name_set set [] = set
name_set set (n ∷ ns) = name_set (elim (is_given n) [ none ↦ set | some k ↦ add k set ]) ns

pub recorded_names-name_set :
    (set : List String) (rs : List Row) → recorded_names set rs ≡ name_set set (names_of rs)
unfolding recorded_names
recorded_names-name_set set [] = refl
recorded_names-name_set set (r ∷ rs) =
    recorded_names-name_set (elim (is_given r.name) [ none ↦ set | some n ↦ add n set ]) rs

-- To prove something of what follows a statement.
pub and_then-elim :
    {S A : Type 0} (P : Finished A × S → Type 0) (m : Executed × S)
    (k : QueryResult → S → Finished A × S)
    → ((q : QueryResult) → m.0 ≡ done q → P (k q m.1))
    → ((message : String) → m.0 ≡ rejected message → P (throws message, m.1))
    → P (and_then m k)
and_then-elim P (done q, s) k hd hr = hd q refl
and_then-elim P (rejected message, s) k hd hr = hr message refl

pub and_tolerate-elim :
    {S A : Type 0} (P : Finished A × S → Type 0) (m : Executed × S) (k : S → Finished A × S)
    → P (k m.1)
    → ((message : String) → P (throws message, m.1))
    → P (and_tolerate m k)
and_tolerate-elim P (done q, s) k hk hr = hk
and_tolerate-elim P (rejected message, s) k hk hr = elim (Bool-cases (already_exists message)) [
  | inl e ↦ rw (and_tolerate, e) hk
  | inr e ↦ rw (and_tolerate, e) (hr message)
]

module _ (recorded : List String) (e : MigrationEntry) (es : List MigrationEntry) where
  pub missing_there :
      contains e.tag recorded ≡ true → missing recorded (e ∷ es) ≡ missing recorded es
  missing_there h = rw (h, missing) refl

  pub missing_lacking :
      contains e.tag recorded ≡ false → missing recorded (e ∷ es) ≡ e.tag ∷ missing recorded es
  missing_lacking h = rw (h, missing) refl

module _ (db : Database) (table : String) (law : IsLawful db table) where
  open law use {names}

  -- After the loop the table has `k` of the missing tags more, and all of them if it returns.
  pub record IsInserted (recorded : List String) (es : List MigrationEntry) (applied : ℕ)
      (s : db.State) (run : Finished ℕ × db.State) : Type 0 where
    pub k : ℕ
    pub few : k ≤ length (missing recorded es)
    pub kept : names run.1 ≡ names s ++ map some (take k (missing recorded es))
    pub counted :
        (n : ℕ) → run.0 ≡ returns n → (n ≡ applied + k) × (k ≡ length (missing recorded es))
    pub supported : run.0 ≢ unsupported_dialect

  module _ (d : Dialect) (recorded : List String) (e : MigrationEntry) (es : List MigrationEntry)
      (applied : ℕ) (s : db.State) where
    inserted : Executed × db.State
    inserted = db.execute s d (insert_row table e.hash e.created_at e.tag)

    insert_missing_there :
        contains e.tag recorded ≡ true
        → insert_missing db d table recorded (e ∷ es) applied s
          ≡ insert_missing db d table recorded es applied s
    unfolding insert_missing
    insert_missing_there h = rw (h, insert_missing) refl

    insert_missing_lacking :
        contains e.tag recorded ≡ false
        → insert_missing db d table recorded (e ∷ es) applied s
          ≡ and_then inserted (λ _ t. insert_missing db d table recorded es (suc applied) t)
    unfolding insert_missing inserted
    insert_missing_lacking h = rw (h, insert_missing) refl

    IsInserted-there :
        contains e.tag recorded ≡ true
        → IsInserted recorded es applied s (insert_missing db d table recorded es applied s)
        → IsInserted recorded
            (e ∷ es)
            applied
            s
            (insert_missing db d table recorded (e ∷ es) applied s)
    IsInserted-there h rest = record {
      k = rest.k;
      few = rw (missing_there recorded e es h) rest.few;
      kept = rw (insert_missing_there h, missing_there recorded e es h) rest.kept;
      counted = rw (insert_missing_there h, missing_there recorded e es h) rest.counted;
      supported = rw (insert_missing_there h) rest.supported;
    }

    IsInserted-done :
        (q : QueryResult) {run : Finished ℕ × db.State}
        → contains e.tag recorded ≡ false
        → inserted.0 ≡ done q
        → IsInserted recorded es (suc applied) inserted.1 run
        → IsInserted recorded (e ∷ es) applied s run
    unfolding inserted
    IsInserted-done q {run} h accepted rest = record {
      k = suc rest.k;
      few = rw (missing_lacking recorded e es h) (omega (arith, rest.few));
      kept = rw (missing_lacking recorded e es h) (
          rest.kept
          ∙ ap (λ ns. ns ++ map some (take rest.k (missing recorded es)))
              (law.insert_done s d e.hash e.created_at e.tag accepted)
          ∙ append_assoc (names s) (some e.tag ∷ [])
              (map some (take rest.k (missing recorded es))));
      counted =
          rw (missing_lacking recorded e es h)
            (λ n r. (omega (arith, (rest.counted n r).0), ap suc (rest.counted n r).1));
      supported = rest.supported;
    }

    IsInserted-rejected :
        (message : String)
        → inserted.0 ≡ rejected message
        → IsInserted recorded (e ∷ es) applied s (throws message, inserted.1)
    unfolding inserted
    IsInserted-rejected message refused = record {
      k = 0;
      few = omega arith;
      kept = law.insert_rejected s d e.hash e.created_at e.tag refused ∙ sym (append-nil (names s));
      counted = λ n r. cc;
      supported = λ r. cc;
    }

  pub insert_missing-IsInserted :
      (d : Dialect) (recorded : List String) (es : List MigrationEntry) (applied : ℕ) (s : db.State)
      → IsInserted recorded es applied s (insert_missing db d table recorded es applied s)
  unfolding insert_missing
  insert_missing-IsInserted d recorded [] applied s = record {
    k = 0;
    few = omega arith;
    kept = sym (append-nil (names s));
    counted = λ n h. (ground arith, refl);
    supported = λ r. cc;
  }
  insert_missing-IsInserted d recorded (e ∷ es) applied s =
      elim (Bool-cases (contains e.tag recorded)) [
        | inl there ↦
            IsInserted-there d recorded e es applied s there
              (insert_missing-IsInserted d recorded es applied s)
        | inr lacking ↦
            subst (IsInserted recorded (e ∷ es) applied s)
              (sym (insert_missing_lacking d recorded e es applied s lacking))
              (and_then-elim (IsInserted recorded (e ∷ es) applied s)
                (inserted d recorded e es applied s) _
                (λ q accepted. IsInserted-done d recorded e es applied s q lacking accepted (
                  insert_missing-IsInserted d recorded es (suc applied)
                    (inserted d recorded e es applied s).1))
                (IsInserted-rejected d recorded e es applied s))
      ]
