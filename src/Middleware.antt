-- ===== src/Middleware.antt =====
-- The request middlewares with a protocol of their own (app/api/middleware/).
pub mod Idempotency
mod Tests
pub mod RateLimit
pub mod BodyLimit
pub mod Csrf
