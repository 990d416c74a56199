-- ===== src/Processor.antt =====
-- packages/app/background-jobs-common/src/background-job-processor/processors: how one job is
-- processed, and what follows when it is completed or has failed. What a run calls is written down as
-- a list of events; what the called code answers is given.
pub mod Failures
pub mod Process
pub mod Hooks
pub mod Lifecycle
pub mod Traced
pub mod Final
mod Tests
