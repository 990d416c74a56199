-- ===== src/Send.antt =====
-- Sending a request that a contract describes: backend-http-client/src/api-contract/sendByApiContract.ts.
pub mod Request
pub mod Response
pub mod Client
pub mod Blob
pub mod Events
pub mod Headers
pub mod Paths
pub mod Answers
pub mod Outcomes
pub mod Tests
