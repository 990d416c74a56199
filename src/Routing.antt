-- ===== src/Routing.antt =====
-- aws-config/src/message-queue-toolkit: the names of topics and queues, and how they are found.
pub mod Regex
pub mod Names
pub mod Config
pub mod Grammar
pub mod Conventions
pub mod Found
pub mod Made
pub mod Tests
