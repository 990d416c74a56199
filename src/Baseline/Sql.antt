-- ===== src/Baseline/Sql.antt =====
-- Dialects, quoting, and the statements with their text.
use Prim.Native.Char.{code}
use Prim.Native.String
use Prim.Native.String.{[] as no_text, ◌∷◌ as char_cons}
use shared_ts_libs.Base.{Bool, true, false, ◌==◌, Option, none, some, String, str_eq, if◌then◌else◌}

pub data Dialect : Type 0 where
  postgresql mysql cockroachdb : Dialect

unfoldable pub normalize_dialect : String → String
normalize_dialect dialect =
    if str_eq dialect "pg"
    then "postgresql"
    else if str_eq dialect "postgres"
    then "postgresql"
    else dialect

supported_dialect : String → Option Dialect
supported_dialect dialect =
    if str_eq dialect "postgresql"
    then some postgresql
    else if str_eq dialect "mysql"
    then some mysql
    else if str_eq dialect "cockroachdb"
    then some cockroachdb
    else none

-- `none` is the error of a dialect that is not supported.
unfoldable pub resolve_dialect : String → Option String → Option Dialect
unfolding normalize_dialect supported_dialect
resolve_dialect detected none = supported_dialect (normalize_dialect detected)
resolve_dialect detected (some explicit) = supported_dialect explicit

unfoldable pub is_pg_like : Dialect → Bool
is_pg_like mysql = false
is_pg_like _ = true

infixr 50 ◌<>◌
abbrev ◌<>◌ : String → String → String
s <> t = String.◌++◌ s t

unfoldable pub quote_identifier : String → Dialect → String
quote_identifier name mysql = "`" <> name <> "`"
quote_identifier name _ = "\"" <> name <> "\""

unfoldable pub qualified_table_name : String → String → Dialect → String
unfolding quote_identifier is_pg_like
qualified_table_name table schema dialect =
    if is_pg_like dialect
    then (if str_eq schema ""
        then quote_identifier table dialect
        else quote_identifier schema dialect <> "." <> quote_identifier table dialect)
    else quote_identifier table dialect

-- `value.replace(/'/g, "''")`
double_quotes : String → String
double_quotes no_text = no_text
double_quotes (char_cons c s) =
    let rest = double_quotes s in
    if code c == 39 then char_cons c (char_cons c rest) else char_cons c rest

unfoldable pub quote_literal : String → String
unfolding double_quotes
quote_literal value = "'" <> double_quotes value <> "'"

pub data Statement : Type 0 where
  create_database create_database_if_not_exists create_schema : (name : String) → Statement
  create_table select_names : (table : String) → Statement
  find_table : (name : String) → Statement
  insert_row : (table hash created_at name : String) → Statement

-- The text that is executed, up to the blanks between its words.
unfoldable pub sql_text : Dialect → Statement → String
unfolding quote_identifier quote_literal
sql_text dialect (create_database name) = "CREATE DATABASE " <> quote_identifier name dialect
sql_text dialect (create_database_if_not_exists name) =
    "CREATE DATABASE IF NOT EXISTS " <> quote_identifier name dialect
sql_text dialect (create_schema name) =
    "CREATE SCHEMA IF NOT EXISTS " <> quote_identifier name dialect
sql_text dialect (create_table table) =
    "CREATE TABLE IF NOT EXISTS " <> table
    <> " ( id serial PRIMARY KEY, hash text NOT NULL, created_at bigint, name text )"
sql_text dialect (select_names table) = "SELECT name FROM " <> table
sql_text mysql (find_table name) =
    "SELECT 1 FROM information_schema.tables WHERE table_schema = DATABASE() AND table_name = "
    <> quote_literal name
    <> " LIMIT 1"
sql_text dialect (find_table name) =
    "SELECT 1 FROM information_schema.tables WHERE table_catalog = current_database() AND table_name = "
    <> quote_literal name
    <> " LIMIT 1"
sql_text dialect (insert_row table hash created_at name) =
    "INSERT INTO "
    <> table
    <> " (hash, created_at, name) VALUES ("
    <> quote_literal hash
    <> ", "
    <> created_at
    <> ", "
    <> quote_literal name
    <> ")"
