-- ===== src/Idempotency.antt =====
-- Idempotency keys: the store of backend/src/services/idempotencyStore.js and the middleware of
-- backend/src/middleware/idempotency.js, without the optional Redis cache.
pub mod Collection
pub mod Store
pub mod Middleware
mod Records
mod Answers
pub mod Acceptance
pub mod Replay
pub mod Retry
mod Tests
