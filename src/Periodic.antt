-- ===== src/Periodic.antt =====
-- background-jobs-common/src/periodic-jobs/AbstractPeriodicJob.ts: one execution of a periodic job with the
-- lock that keeps it to a single consumer.
pub mod Config
pub mod Process
pub mod Runs
pub mod Exclusive
pub mod Tests
