-- ===== src/Queues.antt =====
-- packages/app/background-jobs-common/src/background-job-processor: the queue manager, its registry
-- of queues and the options of a job. BullMQ and Redis are an interface.
pub mod Options
pub mod Registry
pub mod Manager
pub mod Calls
pub mod Flows
pub mod Trees
pub mod Producer
pub mod Walks
pub mod Starts
pub mod Lazy
pub mod Dedup
pub mod Pages
pub mod Spied
mod Tests
