-- ===== src/Expiry.antt =====
-- The expiry of events and the deletion of their media:
-- apps/backend/src/services/event-expiry.service.ts.
pub mod Rows
pub mod Service
pub mod Deadlines
pub mod Notices
pub mod Media
pub mod Spared
