-- ===== src/Snapshot.antt =====
-- drizzle-utils/src/diffSchemaSnapshots.ts: the differences of two schema snapshots.
pub mod Keys
pub mod Diff
pub mod Ascending
pub mod Same
pub mod Deep
pub mod Differences
pub mod Tests
