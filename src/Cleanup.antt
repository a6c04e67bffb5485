-- ===== src/Cleanup.antt =====
-- Deletion of stored objects and of dead rows: apps/backend/src/services/cleanup.service.ts and
-- deleteMany of services/asset.service.ts.
pub mod Rows
pub mod Service
pub mod Orphans
pub mod Sweep
pub mod Sessions
