-- ===== src/Transaction/Tests.antt =====
-- A transaction that is closed by its timeout, then fails to serialize, and then commits.
use shared_ts_libs.Base.{ℕ, zero, suc, Bool, true, ◌≡◌, refl, [], ◌∷◌, none, some}
use shared_ts_libs.Transaction.{
  error, Tried, commits, fails, is_retry_allowed, increase_timeout, refused, Options, with_defaults,
  waits, tries, round_events, next_timeout, verdict, prisma_transaction,
}
use shared_ts_libs.Transaction.Tries.{IsRun, prisma_transaction-IsRun}

transaction : Unit {0}
unfolding prisma_transaction with_defaults verdict next_timeout round_events is_retry_allowed
transaction = tt

abbrev options : Options
options = record {
  db_driver = "CockroachDb";
  retries_allowed = none;
  base_retry_delay_ms = none;
  max_retry_delay_ms = some 150;
  timeout = none;
  max_timeout = some 8000;
}

abbrev attempt : ℕ → ℕ → Tried ℕ
attempt zero timeout =
    fails (error (some "P2028") "Transaction API error: Transaction already closed" none)
attempt (suc zero) timeout = fails (error (some "P0") "restart transaction" (some "40001"))
attempt (suc (suc k)) timeout = commits timeout

abbrev truthy : ℕ → Bool
truthy n = true

run_test : prisma_transaction truthy options attempt ≡ record {
  result = commits 8000;
  events = tries 5000 ∷ waits 100 ∷ tries 8000 ∷ waits 150 ∷ tries 8000 ∷ [];
}
unfolding transaction
run_test = refl

-- A timeout above the largest one is cut down by the increase.
increase_test :
    next_timeout (with_defaults (record options { timeout = some 9000 })) increase_timeout 9000
    ≡ 8000
unfolding transaction
increase_test = refl

unique_violation_test :
    is_retry_allowed "CockroachDb" (some (error (some "P2002") "" none)) ≡ refused
unfolding transaction
unique_violation_test = refl

prisma_transaction-IsRun_example :
    IsRun truthy (with_defaults options) attempt 0 (prisma_transaction truthy options attempt)
prisma_transaction-IsRun_example = prisma_transaction-IsRun truthy options attempt
