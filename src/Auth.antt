-- ===== src/Auth.antt =====
-- Who may do what, and passwords: apps/backend/src/services/auth.service.ts.
pub mod Rows
pub mod Guard
pub mod Passwords
pub mod Access
pub mod Resets
pub mod Sessions
