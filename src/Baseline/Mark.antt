-- ===== src/Baseline/Mark.antt =====
-- `markMigrationsApplied` over any database. The migrations and the dialect that are read from the
-- folder are given; logging is left out.
use shared_ts_libs.Base.{
  ℕ, suc, ◌-◌, Bool, true, false, List, [], ◌∷◌, Option, none, some, String, str_eq, codes,
  text_includes, ascii_lower, contains, add, length, if◌then◌else◌,
}
use shared_ts_libs.Baseline.Sql.{
  Dialect, mysql, create_database, create_database_if_not_exists, create_schema, create_table,
  select_names, find_table, insert_row, is_pg_like, qualified_table_name, resolve_dialect,
}
use shared_ts_libs.Baseline.Database.{
  Row, QueryResult, select_rows, Executed, done, rejected, Database,
}

pub record MigrationEntry : Type 0 where
  pub tag : String
  pub hash : String
  -- the decimal text of the number
  pub created_at : String

pub record MarkOptions : Type 0 where
  pub dialect : Option String
  pub database_name : Option String
  pub legacy_schema_probe_table : Option String
  pub migrations_table : Option String
  pub migrations_schema : Option String

pub data MarkOutcome : Type 0 where
  skipped_fresh skipped_no_migrations baselined : MarkOutcome

pub record MarkResult : Type 0 where
  pub outcome : MarkOutcome
  pub total : ℕ
  pub applied : ℕ
  pub skipped : ℕ

pub data Finished {ℓ} (A : Type ℓ) : Type ℓ where
  returns : A → Finished A
  unsupported_dialect : Finished A
  throws : (message : String) → Finished A

-- `/already exists/i.test(message)`: without the u flag, only ASCII letters match those of the pattern.
unfoldable pub already_exists : String → Bool
already_exists message = text_includes (codes "already exists") (ascii_lower (codes message))

-- What follows a statement that is executed, unless it is rejected.
abbrev pub and_then :
    {S : Type 0} {A : Type 0} → Executed × S → (QueryResult → S → Finished A × S) → Finished A × S
and_then (done q, s) k = k q s
and_then (rejected message, s) k = (throws message, s)

-- The same, where a database that exists already is no error.
abbrev pub and_tolerate :
    {S : Type 0} {A : Type 0} → Executed × S → (S → Finished A × S) → Finished A × S
and_tolerate (done q, s) k = k s
and_tolerate (rejected message, s) k = elim (already_exists message) [
  | true ↦ k s
  | false ↦ (throws message, s)
]

abbrev pub is_given : Option String → Option String
is_given none = none
is_given (some s) = if str_eq s "" then none else some s

abbrev pub or_text : Option String → String → String
or_text none d = d
or_text (some s) d = s

-- The set of the names that are neither null nor empty.
unfoldable pub recorded_names : List String → List Row → List String
recorded_names names [] = names
recorded_names names (r ∷ rs) =
    recorded_names (elim (is_given r.name) [ none ↦ names | some n ↦ add n names ]) rs

abbrev pub table_of : MarkOptions → Dialect → String
table_of o dialect =
    qualified_table_name (or_text o.migrations_table "__drizzle_migrations")
      (or_text o.migrations_schema "drizzle") dialect

abbrev pub has_rows : QueryResult → Bool
has_rows q = elim (select_rows q) [ [] ↦ false | _ ∷ _ ↦ true ]

module _ (db : Database) where
  unfoldable pub ensure_database_exists :
      {A : Type 0}
      → Dialect
      → String
      → db.State
      → (db.State → Finished A × db.State)
      → Finished A × db.State
  ensure_database_exists mysql name s k =
      and_then (db.execute s mysql (create_database_if_not_exists name)) (λ _ t. k t)
  ensure_database_exists d name s k = and_tolerate (db.execute s d (create_database name)) k

  unfoldable pub ensure_migrations_table :
      {A : Type 0}
      → Dialect
      → String
      → String
      → db.State
      → (db.State → Finished A × db.State)
      → Finished A × db.State
  ensure_migrations_table d table schema s k = elim (is_pg_like d) [
    | true ↦
        and_then (db.execute s d (create_schema schema))
          λ _ t. and_then (db.execute t d (create_table table)) λ _ u. k u
    | false ↦ and_then (db.execute s d (create_table table)) λ _ u. k u
  ]

  -- The loop over the entries: how many it has recorded.
  unfoldable pub insert_missing :
      Dialect → String → List String → List MigrationEntry → ℕ → db.State → Finished ℕ × db.State
  insert_missing d table recorded [] applied s = (returns applied, s)
  insert_missing d table recorded (e ∷ es) applied s = elim (contains e.tag recorded) [
    | true ↦ insert_missing d table recorded es applied s
    | false ↦
        and_then (db.execute s d (insert_row table e.hash e.created_at e.tag))
          λ _ t. insert_missing d table recorded es (suc applied) t
  ]

  abbrev pub to_result :
      List MigrationEntry → Finished ℕ × db.State → Finished MarkResult × db.State
  to_result es (returns applied, s) = (
    returns (record {
      outcome = baselined;
      total = length es;
      applied = applied;
      skipped = length es - applied;
    }),
    s,
  )
  to_result es (unsupported_dialect, s) = (unsupported_dialect, s)
  to_result es (throws message, s) = (throws message, s)

  abbrev pub nothing_done : MarkOutcome → MarkResult
  nothing_done o = record { outcome = o; total = 0; applied = 0; skipped = 0 }

  unfoldable pub record_missing :
      MarkOptions → List MigrationEntry → Dialect → db.State → Finished MarkResult × db.State
  unfolding ensure_migrations_table insert_missing recorded_names
  record_missing o [] d s = (returns (nothing_done skipped_no_migrations), s)
  record_missing o (e ∷ es) d s =
      let table = table_of o d in
      ensure_migrations_table d table (or_text o.migrations_schema "drizzle") s λ t.
        and_then (db.execute t d (select_names table)) λ q u.
          to_result (e ∷ es)
            (insert_missing d table (recorded_names [] (select_rows q)) (e ∷ es) 0 u)

  unfoldable pub probe :
      MarkOptions
      → List MigrationEntry
      → Dialect
      → Option String
      → db.State
      → Finished MarkResult × db.State
  unfolding record_missing
  probe o es d none s = record_missing o es d s
  probe o es d (some table) s = and_then (db.execute s d (find_table table)) λ q t.
      elim (has_rows q) [
        | true ↦ record_missing o es d t
        | false ↦ (returns (nothing_done skipped_fresh), t)
      ]

  unfoldable pub ensure_then_probe :
      MarkOptions
      → List MigrationEntry
      → Dialect
      → Option String
      → db.State
      → Finished MarkResult × db.State
  unfolding probe ensure_database_exists
  ensure_then_probe o es d none s = probe o es d (is_given o.legacy_schema_probe_table) s
  ensure_then_probe o es d (some name) s =
      ensure_database_exists d name s λ t. probe o es d (is_given o.legacy_schema_probe_table) t

  unfoldable pub mark_migrations_applied :
      MarkOptions
      → List MigrationEntry
      → (detected_dialect : String) → db.State
      → Finished MarkResult × db.State
  unfolding ensure_then_probe
  mark_migrations_applied o es detected s = elim (resolve_dialect detected o.dialect) [
    | none ↦ (unsupported_dialect, s)
    | some d ↦ ensure_then_probe o es d (is_given o.database_name) s
  ]
