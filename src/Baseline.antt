-- ===== src/Baseline.antt =====
-- packages/app/drizzle-utils/src/markMigrationsApplied.ts: which migrations are recorded as applied.
-- The database is an interface that executes statements and may reject any of them.
pub mod Sql
pub mod Database
pub mod Mark
pub mod Recorded
pub mod Runs
pub mod Settled
pub mod Returns
mod Tests
