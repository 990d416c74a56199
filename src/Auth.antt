-- ===== src/Auth.antt =====
-- packages/app/auth: token decoders, authenticators, their chain, and the handler in front of routes.
pub mod Jwt
pub mod Chain
mod Tests
