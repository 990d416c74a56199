-- ===== src/Baseline/Runs.antt =====
-- Whole runs of `markMigrationsApplied`: what they leave, that they return, and second runs.
use shared_ts_libs.Base.{
  ℕ, ◌+◌, ◌≤◌, ◌≡◌, refl, ap, sym, ◌∙◌, arith, List, [], ◌∷◌, ◌++◌, map, append-nil, Option, none,
  some, String, length, take, Bool-cases, inl, inr,
}
use shared_ts_libs.Baseline.Sql.{
  Dialect, resolve_dialect, postgresql, mysql, cockroachdb, create_database,
  create_database_if_not_exists, select_names, find_table, create_table, create_schema, is_pg_like,
}
use shared_ts_libs.Baseline.Database.{select_rows, Database, IsLawful}
use shared_ts_libs.Baseline.Mark.{
  MigrationEntry, MarkOptions, baselined, MarkResult, Finished, returns, unsupported_dialect,
  throws, and_then, is_given, table_of, ensure_database_exists, ensure_migrations_table, to_result,
  record_missing, probe, ensure_then_probe, or_text, has_rows, mark_migrations_applied,
}
use shared_ts_libs.Baseline.Recorded.{
  missing, name_set, recorded_names-name_set, and_then-elim, and_tolerate-elim, IsInserted,
  insert_missing-IsInserted,
}

-- What a run that recorded `k` of the tags in `lacking` returns.
abbrev pub IsCounted : List MigrationEntry → List String → ℕ → Finished MarkResult → Type 0
IsCounted es lacking k (returns r) =
    (r.applied ≡ k)
    × (r.applied + r.skipped ≡ r.total)
    × (r.outcome ≡ baselined → (k ≡ length lacking) × (r.total ≡ length es))
IsCounted es lacking k unsupported_dialect = k ≡ 0
IsCounted es lacking k (throws message) = Unit

length-missing :
    (recorded : List String) (es : List MigrationEntry) → length (missing recorded es) ≤ length es
length-missing recorded [] = omega arith
length-missing recorded (e ∷ es) = ground (arith, length-missing recorded es)

module _ (db : Database) (table : String) (law : IsLawful db table) (es : List MigrationEntry) where
  open law use {names}

  abbrev pub lacking : List (Option String) → List String
  lacking ns = missing (name_set [] ns) es

  -- The table, after a run that started with the names `ns`, has the first `k` of the lacking tags
  -- more, and nothing else.
  pub record IsMarked (ns : List (Option String)) (run : Finished MarkResult × db.State)
      : Type 0 where
    pub k : ℕ
    pub few : k ≤ length (lacking ns)
    pub kept : names run.1 ≡ ns ++ map some (take k (lacking ns))
    pub counted : IsCounted es (lacking ns) k run.0

  -- Nothing recorded.
  IsMarked-none :
      (ns : List (Option String)) (run : Finished MarkResult × db.State)
      → names run.1 ≡ ns
      → IsCounted es (lacking ns) 0 run.0
      → IsMarked ns run
  IsMarked-none ns run same counted = record {
    k = 0;
    few = omega arith;
    kept = same ∙ sym (append-nil ns);
    counted = counted;
  }

  IsMarked-inserted :
      (ns : List (Option String)) (s : db.State) (run : Finished ℕ × db.State)
      → names s ≡ ns
      → IsInserted db table law (name_set [] ns) es 0 s run
      → IsMarked ns (to_result db es run)
  IsMarked-inserted ns s (returns n, t) same i = record {
    k = i.k;
    few = i.few;
    kept = i.kept ∙ ap (λ xs. xs ++ map some (take i.k (lacking ns))) same;
    counted = (
      omega (arith, (i.counted n refl).0),
      omega (arith, length-missing (name_set [] ns) es, i.few, (i.counted n refl).0),
      λ e. ((i.counted n refl).1, refl),
    );
  }
  IsMarked-inserted ns s (unsupported_dialect, t) same i = absurd (i.supported refl)
  IsMarked-inserted ns s (throws message, t) same i = record {
    k = i.k;
    few = i.few;
    kept = i.kept ∙ ap (λ xs. xs ++ map some (take i.k (lacking ns))) same;
    counted = tt;
  }

module _ (db : Database) (table : String) (law : IsLawful db table) (ns : List (Option String))
    (P : Finished MarkResult × db.State → Type 0) where
  open law use {names}

  ensure_database_exists-elim :
      (d : Dialect) (name : String) (s : db.State) (k : db.State → Finished MarkResult × db.State)
      → names s ≡ ns
      → ((t : db.State) → names t ≡ ns → P (k t))
      → ((t : db.State) (message : String) → names t ≡ ns → P (throws message, t))
      → P (ensure_database_exists db d name s k)
  unfolding ensure_database_exists
  ensure_database_exists-elim mysql name s k same next stop =
      and_then-elim P (db.execute s mysql (create_database_if_not_exists name)) (λ _ t. k t)
        (λ q a. next _ (law.create_database_if_not_exists_kept s mysql name ∙ same))
        (λ m r. stop _ m (law.create_database_if_not_exists_kept s mysql name ∙ same))
  ensure_database_exists-elim postgresql name s k same next stop =
      and_tolerate-elim P (db.execute s postgresql (create_database name)) k
        (next _ (law.create_database_kept s postgresql name ∙ same))
        (λ m. stop _ m (law.create_database_kept s postgresql name ∙ same))
  ensure_database_exists-elim cockroachdb name s k same next stop =
      and_tolerate-elim P (db.execute s cockroachdb (create_database name)) k
        (next _ (law.create_database_kept s cockroachdb name ∙ same))
        (λ m. stop _ m (law.create_database_kept s cockroachdb name ∙ same))

module _ (db : Database) (o : MarkOptions) (d : Dialect) (law : IsLawful db (table_of o d)) where
  open law use {names}

  module _ (ns : List (Option String)) where
    -- What a run leaves whose table starts with the names `ns`.
    abbrev Marks : List MigrationEntry → Finished MarkResult × db.State → Type 0
    Marks es run = IsMarked db (table_of o d) law es ns run

    IsMarked-throws :
        (es : List MigrationEntry) (s : db.State) (message : String)
        → names s ≡ ns
        → Marks es (throws message, s)
    IsMarked-throws es s message same = IsMarked-none db (table_of o d) law es ns _ same tt

    created-IsMarked :
        (es : List MigrationEntry) (s : db.State) (k : db.State → Finished MarkResult × db.State)
        → names s ≡ ns
        → ((t : db.State) → names t ≡ ns → Marks es (k t))
        → Marks es (and_then (db.execute s d (create_table (table_of o d))) (λ _ u. k u))
    created-IsMarked es s k same next =
        and_then-elim (Marks es) (db.execute s d (create_table (table_of o d))) (λ _ u. k u)
          (λ q a. next _ (law.create_table_kept s d _ ∙ same))
          (λ m r. IsMarked-throws es _ m (law.create_table_kept s d _ ∙ same))

    ensure_migrations_table-IsMarked :
        (es : List MigrationEntry) (s : db.State) (k : db.State → Finished MarkResult × db.State)
        → names s ≡ ns
        → ((t : db.State) → names t ≡ ns → Marks es (k t))
        → Marks es (
            ensure_migrations_table db d (table_of o d) (or_text o.migrations_schema "drizzle") s k)
    unfolding ensure_migrations_table
    ensure_migrations_table-IsMarked es s k same next =
        let schema = db.execute s d (create_schema (or_text o.migrations_schema "drizzle")) in
        let kept = law.create_schema_kept s d (or_text o.migrations_schema "drizzle") ∙ same in
        elim (Bool-cases (is_pg_like d)) [
          | inl e ↦
              rw (e, ensure_migrations_table)
                (and_then-elim (Marks es) schema _ (λ q a. created-IsMarked es schema.1 k kept next)
                  (λ m r. IsMarked-throws es _ m kept))
          | inr e ↦ rw (e, ensure_migrations_table) (created-IsMarked es s k same next)
        ]

    record_missing-IsMarked :
        (es : List MigrationEntry) (s : db.State)
        → names s ≡ ns
        → Marks es (record_missing db o es d s)
    unfolding record_missing
    record_missing-IsMarked [] s same =
        IsMarked-none db (table_of o d) law [] ns _ same (refl, refl, λ e. cc)
    record_missing-IsMarked (e ∷ es) s same =
        ensure_migrations_table-IsMarked (e ∷ es) s _ same λ t kept.
          let selected = db.execute t d (select_names (table_of o d)) in
          and_then-elim (Marks (e ∷ es)) selected _
            (λ q accepted.
              IsMarked-inserted db (table_of o d) law (e ∷ es) ns selected.1 _
                (law.select_names_kept t d ∙ kept)
                (rw (recorded_names-name_set [] (select_rows q), law.selected t d accepted, kept)
                  (insert_missing-IsInserted db (table_of o d) law d (name_set [] ns) (e ∷ es) 0
                    selected.1)))
            (λ m r. IsMarked-throws (e ∷ es) _ m (law.select_names_kept t d ∙ kept))

    probe-IsMarked :
        (es : List MigrationEntry) (legacy : Option String) (s : db.State)
        → names s ≡ ns
        → Marks es (probe db o es d legacy s)
    unfolding probe
    probe-IsMarked es none s same = record_missing-IsMarked es s same
    probe-IsMarked es (some legacy) s same =
        let found = db.execute s d (find_table legacy) in
        let kept = law.find_table_kept s d legacy ∙ same in
        and_then-elim (Marks es) found _
          (λ q accepted. elim (Bool-cases (has_rows q)) [
            | inl e ↦ rw e (record_missing-IsMarked es found.1 kept)
            | inr e ↦ rw e (IsMarked-none db (table_of o d) law es ns _ kept (refl, refl, λ b. cc))
          ])
          (λ m r. IsMarked-throws es _ m kept)

    ensure_then_probe-IsMarked :
        (es : List MigrationEntry) (name : Option String) (s : db.State)
        → names s ≡ ns
        → Marks es (ensure_then_probe db o es d name s)
    unfolding ensure_then_probe
    ensure_then_probe-IsMarked es none s same = probe-IsMarked es _ s same
    ensure_then_probe-IsMarked es (some name) s same =
        ensure_database_exists-elim db (table_of o d) law ns (Marks es) d name s _ same
          (λ t kept. probe-IsMarked es _ t kept) (λ t m kept. IsMarked-throws es t m kept)

-- Whatever the database answers, and also where a rejected statement ends the run: with a dialect
-- that is supported, the tracking table keeps the names it has and gets the first `k` of the tags
-- that it lacks, in the order of the migrations; a run that returns reports `applied = k` and
-- `applied + skipped = total`, and with the outcome `baselined` all lacking tags are recorded and
-- `total` is the number of migrations.
pub mark_migrations_applied-IsMarked :
    (db : Database) (o : MarkOptions) (es : List MigrationEntry) (detected : String) (d : Dialect)
    (s : db.State)
    → resolve_dialect detected o.dialect ≡ some d
    → (law : IsLawful db (table_of o d))
    → IsMarked db (table_of o d) law es (law.names s) (mark_migrations_applied db o es detected s)
unfolding mark_migrations_applied
mark_migrations_applied-IsMarked db o es detected d s h law =
    rw (h, mark_migrations_applied)
      (ensure_then_probe-IsMarked db o d law (law.names s) es (is_given o.database_name) s refl)
