-- ===== src/Limiter.antt =====
-- The rate limiter of the public pages: apps/backend/src/utils/rate-limiter.ts.
pub mod Window
pub mod Counts
pub mod Refines
