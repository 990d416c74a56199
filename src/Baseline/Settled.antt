-- ===== src/Baseline/Settled.antt =====
-- Second runs of `markMigrationsApplied`, and runs over a database that rejects nothing.
use shared_ts_libs.Base.{
  true, false, ◌≡◌, refl, ap, ◌∙◌, arith, List, [], ◌∷◌, ◌++◌, map, append-nil, Option, none, some,
  String, str_eq, eq_iff, contains, add, contains-add, length, take, All, Bool-cases, inl, inr,
}
use mathlib.Core.Path.{subst}
use shared_ts_libs.Baseline.Sql.{Dialect, resolve_dialect}
use shared_ts_libs.Baseline.Database.{Database, IsLawful}
use shared_ts_libs.Baseline.Mark.{
  MigrationEntry, MarkOptions, baselined, MarkResult, Finished, returns, is_given, table_of,
  mark_migrations_applied,
}
use shared_ts_libs.Baseline.Recorded.{missing, missing_there, missing_lacking, name_set}
use shared_ts_libs.Baseline.Runs.{IsMarked, IsCounted, mark_migrations_applied-IsMarked}

name_set-append :
    (set : List String) (xs ys : List (Option String))
    → name_set set (xs ++ ys) ≡ name_set (name_set set xs) ys
name_set-append set [] ys = refl
name_set-append set (x ∷ xs) ys =
    name_set-append (elim (is_given x) [ none ↦ set | some k ↦ add k set ]) xs ys

contains-name_set :
    (k : String) (set : List String) (ns : List (Option String))
    → contains k set ≡ true
    → contains k (name_set set ns) ≡ true
contains-name_set k set [] h = h
contains-name_set k set (none ∷ ns) h = contains-name_set k set ns h
contains-name_set k set (some n ∷ ns) h = elim (Bool-cases (str_eq n "")) [
  | inl e ↦ rw (e, name_set, is_given) (contains-name_set k set ns h)
  | inr e ↦
      rw (e, name_set, is_given)
        (contains-name_set k (add n set) ns (ground (arith, contains-add n k set)))
]

abbrev pub HasTag : MigrationEntry → Type 0
HasTag e = str_eq e.tag "" ≡ false

-- Once the missing tags are recorded, none is missing.
missing-name_set :
    (recorded cur : List String) (es : List MigrationEntry)
    → ((k : String) → contains k recorded ≡ true → contains k cur ≡ true)
    → All HasTag es
    → missing (name_set cur (map some (missing recorded es))) es ≡ []
missing-name_set recorded cur [] sub tags = refl
missing-name_set recorded cur (e ∷ es) sub tags = elim (Bool-cases (contains e.tag recorded)) [
  | inl there ↦ rw (missing_there recorded e es there) (
      missing_there _ e es
        (contains-name_set e.tag cur (map some (missing recorded es)) (sub e.tag there))
      ∙ missing-name_set recorded cur es sub tags.1)
  | inr lacks ↦ rw (missing_lacking recorded e es lacks) (
      rw (tags.0, name_set, is_given)
        (missing_there _ e es (
            contains-name_set e.tag (add e.tag cur) (map some (missing recorded es))
              (ground (arith, contains-add e.tag e.tag cur, eq_iff e.tag e.tag)))
          ∙ missing-name_set recorded (add e.tag cur) es
              (λ k h. ground (arith, sub k h, contains-add e.tag k cur)) tags.1))
]

take_all : {A : Type 0} → (xs : List A) → take (length xs) xs ≡ xs
take_all [] = refl
take_all (x ∷ xs) = ap (λ ys. x ∷ ys) (take_all xs)

module _ (db : Database) (o : MarkOptions) (es : List MigrationEntry) (detected : String)
    (d : Dialect) (resolved : resolve_dialect detected o.dialect ≡ some d)
    (law : IsLawful db (table_of o d)) where
  open law use {names}

  module _ (s : db.State) where
    abbrev first_run : Finished MarkResult × db.State
    first_run = mark_migrations_applied db o es detected s

    first_run-IsMarked : IsMarked db (table_of o d) law es (names s) first_run
    first_run-IsMarked = mark_migrations_applied-IsMarked db o es detected d s resolved law

    nothing_missing :
        (r : MarkResult)
        → All HasTag es
        → first_run.0 ≡ returns r
        → r.outcome ≡ baselined
        → missing (name_set [] (names first_run.1)) es ≡ []
    nothing_missing r tags returned based =
        let lacking = missing (name_set [] (names s)) es in
        let m = first_run-IsMarked in
        let all = (subst (IsCounted es lacking m.k) returned m.counted).2 based in
        rw (m.kept, all.0, take_all lacking, name_set-append [] (names s) (map some lacking))
          (missing-name_set (name_set [] (names s)) (name_set [] (names s)) es (λ k h. h) tags)

  -- After a run that returns with the outcome `baselined`, over migrations whose tags are not empty,
  -- a second run leaves the names in the table alone, and if it returns it reports none applied.
  pub second_run-same :
      (s : db.State) (r : MarkResult)
      → All HasTag es
      → (first_run s).0 ≡ returns r
      → r.outcome ≡ baselined
      → (names (first_run (first_run s).1).1 ≡ names (first_run s).1)
        × ((r' : MarkResult) → (first_run (first_run s).1).0 ≡ returns r' → r'.applied ≡ 0)
  second_run-same s r tags returned based =
      let m = first_run-IsMarked (first_run s).1 in
      let none_missing = nothing_missing s r tags returned based in
      let zero_k : m.k ≡ 0 = omega (arith, m.few, ap length none_missing) in
      (
        m.kept
            ∙ ap
                (λ k.
                  names (first_run s).1
                  ++ map some (take k (missing (name_set [] (names (first_run s).1)) es)))
                zero_k
            ∙ append-nil (names (first_run s).1),
        λ r' h. (subst (IsCounted es _ m.k) h m.counted).0 ∙ zero_k,
      )
