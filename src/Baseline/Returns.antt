-- ===== src/Baseline/Returns.antt =====
-- Runs of `markMigrationsApplied` over a database that rejects nothing return.
use shared_ts_libs.Base.{
  ℕ, suc, ◌≡◌, ◌≢◌, refl, List, [], ◌∷◌, Option, none, some, String, contains, Bool-cases, inl, inr,
}
use mathlib.Core.Path.{subst}
use shared_ts_libs.Baseline.Sql.{
  Dialect, resolve_dialect, mysql, postgresql, cockroachdb, Statement, insert_row, create_database,
  create_database_if_not_exists, create_schema, create_table, select_names, find_table, is_pg_like,
}
use shared_ts_libs.Baseline.Database.{QueryResult, Executed, done, rejected, Database, select_rows}
use shared_ts_libs.Baseline.Mark.{
  MigrationEntry, MarkOptions, MarkResult, Finished, returns, unsupported_dialect, throws, and_then,
  and_tolerate, is_given, table_of, ensure_database_exists, ensure_migrations_table, insert_missing,
  to_result, record_missing, probe, ensure_then_probe, mark_migrations_applied, has_rows,
  recorded_names,
}
use shared_ts_libs.Baseline.Recorded.{and_then-elim}

abbrev pub IsReturn : {S A : Type 0} → Finished A × S → Type 0
IsReturn {A = A} run = (r : A) × (run.0 ≡ returns r)

accepted_tolerated :
    {S A : Type 0} (m : Executed × S) (k : S → Finished A × S)
    → ((message : String) → m.0 ≢ rejected message)
    → IsReturn (k m.1)
    → IsReturn (and_tolerate m k)
accepted_tolerated (done q, s) k accepted h = h
accepted_tolerated (rejected message, s) k accepted h = absurd (accepted message refl)

module _ (db : Database)
    (accepts : (s : db.State) (d : Dialect) (statement : Statement) (message : String)
      → (db.execute s d statement).0 ≢ rejected message) where
  and_then-IsReturn :
      {A : Type 0} (s : db.State) (d : Dialect) (statement : Statement)
      (k : QueryResult → db.State → Finished A × db.State)
      → ((q : QueryResult) (t : db.State) → IsReturn (k q t))
      → IsReturn (and_then (db.execute s d statement) k)
  and_then-IsReturn s d statement k next =
      and_then-elim IsReturn (db.execute s d statement) k (λ q _. next q _)
        (λ message refused. absurd (accepts s d statement message refused))

  and_tolerate-IsReturn :
      {A : Type 0} (s : db.State) (d : Dialect) (statement : Statement)
      (k : db.State → Finished A × db.State)
      → ((t : db.State) → IsReturn (k t))
      → IsReturn (and_tolerate (db.execute s d statement) k)
  and_tolerate-IsReturn s d statement k next =
      accepted_tolerated (db.execute s d statement) k (λ message. accepts s d statement message)
        (next _)

  insert_missing-IsReturn :
      (d : Dialect) (table : String) (recorded : List String) (es : List MigrationEntry)
      (applied : ℕ) (s : db.State)
      → IsReturn (insert_missing db d table recorded es applied s)
  unfolding insert_missing
  insert_missing-IsReturn d table recorded [] applied s = (applied, refl)
  insert_missing-IsReturn d table recorded (e ∷ es) applied s =
      elim (Bool-cases (contains e.tag recorded)) [
        | inl there ↦
            rw (there, insert_missing) (insert_missing-IsReturn d table recorded es applied s)
        | inr lacks ↦
            rw (lacks, insert_missing)
              (and_then-IsReturn s d (insert_row table e.hash e.created_at e.tag) _
                (λ q t. insert_missing-IsReturn d table recorded es (suc applied) t))
      ]

  to_result-IsReturn :
      (es : List MigrationEntry) (run : Finished ℕ × db.State)
      → IsReturn run
      → IsReturn (to_result db es run)
  to_result-IsReturn es (returns n, s) h = (_, refl)
  to_result-IsReturn es (unsupported_dialect, s) h = cc
  to_result-IsReturn es (throws message, s) h = cc

  ensure_database_exists-IsReturn :
      {A : Type 0} (d : Dialect) (name : String) (s : db.State)
      (k : db.State → Finished A × db.State)
      → ((t : db.State) → IsReturn (k t))
      → IsReturn (ensure_database_exists db d name s k)
  unfolding ensure_database_exists
  ensure_database_exists-IsReturn mysql name s k next =
      and_then-IsReturn s mysql (create_database_if_not_exists name) _ (λ q t. next t)
  ensure_database_exists-IsReturn postgresql name s k next =
      and_tolerate-IsReturn s postgresql (create_database name) k next
  ensure_database_exists-IsReturn cockroachdb name s k next =
      and_tolerate-IsReturn s cockroachdb (create_database name) k next

  ensure_migrations_table-IsReturn :
      {A : Type 0} (d : Dialect) (table schema : String) (s : db.State)
      (k : db.State → Finished A × db.State)
      → ((t : db.State) → IsReturn (k t))
      → IsReturn (ensure_migrations_table db d table schema s k)
  unfolding ensure_migrations_table
  ensure_migrations_table-IsReturn d table schema s k next = elim (Bool-cases (is_pg_like d)) [
    | inl e ↦
        rw (e, ensure_migrations_table)
          (and_then-IsReturn s d (create_schema schema) _
            (λ q t. and_then-IsReturn t d (create_table table) _ (λ q u. next u)))
    | inr e ↦
        rw (e, ensure_migrations_table)
          (and_then-IsReturn s d (create_table table) _ (λ q u. next u))
  ]

  module _ (o : MarkOptions) (d : Dialect) where
    record_missing-IsReturn :
        (es : List MigrationEntry) (s : db.State) → IsReturn (record_missing db o es d s)
    unfolding record_missing
    record_missing-IsReturn [] s = (_, refl)
    record_missing-IsReturn (e ∷ es) s =
        ensure_migrations_table-IsReturn d (table_of o d) _ s _ λ t.
          and_then-IsReturn t d (select_names (table_of o d)) _ λ q u.
            to_result-IsReturn (e ∷ es) _ (
              insert_missing-IsReturn d (table_of o d) (recorded_names [] (select_rows q)) (e ∷ es)
                0 u)

    probe-IsReturn :
        (es : List MigrationEntry) (legacy : Option String) (s : db.State)
        → IsReturn (probe db o es d legacy s)
    unfolding probe
    probe-IsReturn es none s = record_missing-IsReturn es s
    probe-IsReturn es (some legacy) s = and_then-IsReturn s d (find_table legacy) _ λ q t.
        elim (Bool-cases (has_rows q)) [
          | inl e ↦ rw e (record_missing-IsReturn es t)
          | inr e ↦ rw e (_, refl)
        ]

    ensure_then_probe-IsReturn :
        (es : List MigrationEntry) (name : Option String) (s : db.State)
        → IsReturn (ensure_then_probe db o es d name s)
    unfolding ensure_then_probe
    ensure_then_probe-IsReturn es none s = probe-IsReturn es _ s
    ensure_then_probe-IsReturn es (some name) s =
        ensure_database_exists-IsReturn d name s _ (λ t. probe-IsReturn es _ t)

-- Over a database that rejects no statement, a run returns a result exactly when the dialect, given
-- or detected, is supported.
pub mark_migrations_applied-IsReturn :
    (db : Database)
    (accepts : (s : db.State) (d : Dialect) (statement : Statement) (message : String)
      → (db.execute s d statement).0 ≢ rejected message)
    (o : MarkOptions) (es : List MigrationEntry) (detected : String) (s : db.State)
    → (IsReturn (mark_migrations_applied db o es detected s)
        → (d : Dialect) × (resolve_dialect detected o.dialect ≡ some d))
      × ((d : Dialect)
          → resolve_dialect detected o.dialect ≡ some d
          → IsReturn (mark_migrations_applied db o es detected s))
unfolding mark_migrations_applied
mark_migrations_applied-IsReturn db accepts o es detected s = (
  λ h. dialect_of h (resolve_dialect detected o.dialect) refl,
  λ d e.
      rw (e, mark_migrations_applied)
        (ensure_then_probe-IsReturn db accepts o d es (is_given o.database_name) s),
)
  where
    mark_resolved : Option Dialect → Finished MarkResult × db.State
    mark_resolved none = (unsupported_dialect, s)
    mark_resolved (some d) = ensure_then_probe db o es d (is_given o.database_name) s

    dialect_of :
        IsReturn (mark_migrations_applied db o es detected s)
        → (r : Option Dialect) → resolve_dialect detected o.dialect ≡ r
        → (d : Dialect) × (resolve_dialect detected o.dialect ≡ some d)
    dialect_of (r, h) (some d) e = (d, e)
    dialect_of (r, h) none e =
        let never : unsupported_dialect ≡ returns r =
          subst (λ (x : Option Dialect). (mark_resolved x).0 ≡ returns r) e h in
        cc
