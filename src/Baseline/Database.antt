-- ===== src/Baseline/Database.antt =====
-- The client of the database, its results, and what the theorems assume of the tracking table.
use shared_ts_libs.Base.{◌≡◌, List, [], ◌∷◌, ◌++◌, map, Option, none, some, String}
use shared_ts_libs.Baseline.Sql.{
  Dialect, Statement, create_database, create_database_if_not_exists, create_schema, create_table,
  select_names, find_table, insert_row,
}

-- A row, of which only `name` is read: `none` is null or undefined.
pub record Row : Type 0 where
  pub name : Option String

-- What an array of a driver holds: rows, or the arrays of `[rows, fields]`.
pub data Item : Type 0 where
  row : Row → Item
  array : List Row → Item

pub data QueryResult : Type 0 where
  array_result : List Item → QueryResult
  rows_object : List Row → QueryResult
  no_rows : QueryResult

abbrev as_row : Item → Row
as_row (row r) = r
as_row (array rs) = record { name = none }

unfoldable pub select_rows : QueryResult → List Row
select_rows (array_result (array rows ∷ rest)) = rows
select_rows (array_result items) = map as_row items
select_rows (rows_object rows) = rows
select_rows no_rows = []

pub data Executed : Type 0 where
  done : QueryResult → Executed
  rejected : (message : String) → Executed

pub record Database : Type 1 where
  pub State : Type 0
  pub execute : State → Dialect → Statement → Executed × State

abbrev pub names_of : List Row → List (Option String)
names_of [] = []
names_of (r ∷ rs) = r.name ∷ names_of rs

-- The names that the tracking table `table` holds, none before it is created. An accepted insert
-- adds its name at the end, a rejected one adds nothing; no other statement changes them, and
-- SELECT returns them.
pub record IsLawful (db : Database) (table : String) : Type 0 where
  pub names : db.State → List (Option String)
  pub insert_done :
      (s : db.State) (d : Dialect) (hash created_at name : String) {q : QueryResult}
      → (db.execute s d (insert_row table hash created_at name)).0 ≡ done q
      → names (db.execute s d (insert_row table hash created_at name)).1 ≡ names s ++ some name ∷ []
  pub insert_rejected :
      (s : db.State) (d : Dialect) (hash created_at name : String) {message : String}
      → (db.execute s d (insert_row table hash created_at name)).0 ≡ rejected message
      → names (db.execute s d (insert_row table hash created_at name)).1 ≡ names s
  pub selected :
      (s : db.State) (d : Dialect) {q : QueryResult}
      → (db.execute s d (select_names table)).0 ≡ done q
      → names_of (select_rows q) ≡ names s
  pub select_names_kept :
      (s : db.State) (d : Dialect) → names (db.execute s d (select_names table)).1 ≡ names s
  pub create_database_kept :
      (s : db.State) (d : Dialect) (name : String)
      → names (db.execute s d (create_database name)).1 ≡ names s
  pub create_database_if_not_exists_kept :
      (s : db.State) (d : Dialect) (name : String)
      → names (db.execute s d (create_database_if_not_exists name)).1 ≡ names s
  pub create_schema_kept :
      (s : db.State) (d : Dialect) (name : String)
      → names (db.execute s d (create_schema name)).1 ≡ names s
  pub create_table_kept :
      (s : db.State) (d : Dialect) (t : String)
      → names (db.execute s d (create_table t)).1 ≡ names s
  pub find_table_kept :
      (s : db.State) (d : Dialect) (name : String)
      → names (db.execute s d (find_table name)).1 ≡ names s
