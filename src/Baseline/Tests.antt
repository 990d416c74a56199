-- ===== src/Baseline/Tests.antt =====
-- A database that only the names of its tracking table make up, and runs over it.
use shared_ts_libs.Base.{◌≡◌, ◌≢◌, refl, ap, sym, List, [], ◌∷◌, ◌++◌, Option, none, some, String}
use shared_ts_libs.Baseline.Sql.{
  Dialect, mysql, postgresql, Statement, create_database, create_database_if_not_exists,
  create_schema, create_table, select_names, find_table, insert_row, is_pg_like,
  qualified_table_name, sql_text, resolve_dialect,
}
use shared_ts_libs.Baseline.Database.{
  Row, QueryResult, rows_object, no_rows, select_rows, Executed, done, rejected, Database, names_of,
  IsLawful,
}
use shared_ts_libs.Baseline.Mark.{
  MigrationEntry, MarkOptions, baselined, MarkResult, Finished, returns, table_of,
  mark_migrations_applied,
}
use shared_ts_libs.Baseline.Runs.{IsMarked, mark_migrations_applied-IsMarked}
use shared_ts_libs.Baseline.Settled.{second_run-same}
use shared_ts_libs.Baseline.Returns.{IsReturn, mark_migrations_applied-IsReturn}

baseline : Unit {0}
unfolding mark_migrations_applied resolve_dialect select_rows is_pg_like qualified_table_name
    sql_text
baseline = tt

abbrev rows : List (Option String) → List Row
rows [] = []
rows (n ∷ ns) = record { name = n } ∷ rows ns

abbrev answer : List (Option String) → Dialect → Statement → Executed × List (Option String)
answer s d (create_database name) = (done no_rows, s)
answer s d (create_database_if_not_exists name) = (done no_rows, s)
answer s d (create_schema name) = (done no_rows, s)
answer s d (create_table table) = (done no_rows, s)
answer s d (select_names table) = (done (rows_object (rows s)), s)
answer s d (find_table name) = (done (rows_object (record { name = none } ∷ [])), s)
answer s d (insert_row table hash created_at name) = (done no_rows, s ++ some name ∷ [])

abbrev names_only : Database
names_only = record { State = List (Option String); execute = answer }

names_of-rows : (ns : List (Option String)) → names_of (rows ns) ≡ ns
names_of-rows [] = refl
names_of-rows (n ∷ ns) = ap (λ ms. n ∷ ms) (names_of-rows ns)

selected_names :
    (s : List (Option String)) {q : QueryResult}
    → done (rows_object (rows s)) ≡ done q
    → names_of (select_rows q) ≡ s
unfolding select_rows
selected_names s {q} h = let e : rows_object (rows s) ≡ q = cc in rw (sym e) (names_of-rows s)

refused_never : (q : QueryResult) {message : String} → done q ≢ rejected message
refused_never q h = cc

abbrev names_only-IsLawful : (table : String) → IsLawful names_only table
names_only-IsLawful table = record {
  names = λ s. s;
  insert_done = λ s d hash created_at name h. refl;
  insert_rejected = λ s d hash created_at name h. absurd (refused_never no_rows h);
  selected = λ s d h. selected_names s h;
  select_names_kept = λ s d. refl;
  create_database_kept = λ s d name. refl;
  create_database_if_not_exists_kept = λ s d name. refl;
  create_schema_kept = λ s d name. refl;
  create_table_kept = λ s d t. refl;
  find_table_kept = λ s d name. refl;
}

names_only_accepts :
    (s : List (Option String)) (d : Dialect) (statement : Statement) (message : String)
    → (names_only.execute s d statement).0 ≢ rejected message
names_only_accepts s d (create_database name) message = λ h. cc
names_only_accepts s d (create_database_if_not_exists name) message = λ h. cc
names_only_accepts s d (create_schema name) message = λ h. cc
names_only_accepts s d (create_table table) message = λ h. cc
names_only_accepts s d (select_names table) message = λ h. cc
names_only_accepts s d (find_table name) message = λ h. cc
names_only_accepts s d (insert_row table hash created_at name) message = λ h. cc

abbrev options : MarkOptions
options = record {
  dialect = none;
  database_name = some "app";
  legacy_schema_probe_table = some "users";
  migrations_table = none;
  migrations_schema = none;
}

abbrev migrations : List MigrationEntry
migrations =
    record { tag = "0000_init"; hash = "a1"; created_at = "1700000000000" }
    ∷ record { tag = "0001_users"; hash = "b2"; created_at = "1700000000001" }
    ∷ []

abbrev recorded_one : List (Option String)
recorded_one = some "0000_init" ∷ none ∷ []

table_test : table_of options postgresql ≡ "\"drizzle\".\"__drizzle_migrations\""
unfolding baseline
table_test = refl

text_test :
    sql_text mysql (insert_row "`m`" "a'1" "17" "0000")
    ≡ "INSERT INTO `m` (hash, created_at, name) VALUES ('a''1', 17, '0000')"
unfolding baseline
text_test = refl

run_test : mark_migrations_applied names_only options migrations "pg" recorded_one ≡ (
  returns (record { outcome = baselined; total = 2; applied = 1; skipped = 1 }),
  some "0000_init" ∷ none ∷ some "0001_users" ∷ [],
)
unfolding baseline
run_test = refl

mark_migrations_applied-IsMarked_example :
    IsMarked names_only
      (table_of options postgresql)
      (names_only-IsLawful (table_of options postgresql))
      migrations
      recorded_one
      (mark_migrations_applied names_only options migrations "pg" recorded_one)
unfolding baseline
mark_migrations_applied-IsMarked_example =
    mark_migrations_applied-IsMarked names_only options migrations "pg" postgresql recorded_one refl
      (names_only-IsLawful (table_of options postgresql))

abbrev first_result : MarkResult
first_result = record { outcome = baselined; total = 2; applied = 1; skipped = 1 }

abbrev run : List (Option String) → Finished MarkResult × List (Option String)
run s = mark_migrations_applied names_only options migrations "pg" s

second_run-same_example :
    ((run (run recorded_one).1).1 ≡ (run recorded_one).1)
    × ((r : MarkResult) → (run (run recorded_one).1).0 ≡ returns r → r.applied ≡ 0)
unfolding baseline
second_run-same_example =
    second_run-same names_only options migrations "pg" postgresql refl
      (names_only-IsLawful (table_of options postgresql)) recorded_one first_result
      (refl, (refl, tt)) refl refl

mark_migrations_applied-IsReturn_example :
    (IsReturn (run recorded_one) → (d : Dialect) × (resolve_dialect "pg" none ≡ some d))
    × ((d : Dialect) → resolve_dialect "pg" none ≡ some d → IsReturn (run recorded_one))
mark_migrations_applied-IsReturn_example =
    mark_migrations_applied-IsReturn names_only names_only_accepts options migrations "pg"
      recorded_one
