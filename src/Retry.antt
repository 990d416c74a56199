-- ===== src/Retry.antt =====
-- packages/app/backend-http-client/src/api-contract/retry.ts. Delays are numbers of the runtime, the
-- number of retries is a natural number. The calls, the waits, the signal and the clock are an
-- environment that answers for each round of the loop.
pub mod Config
pub mod Loop
mod Tests
