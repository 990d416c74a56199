-- ===== src/Polling.antt =====
-- packages/app/polling: the exponential backoff strategy behind `Poller.poll`.
pub mod Backoff
pub mod Execute
mod Tests
