-- ===== src/Org.antt =====
-- Organizations: apps/backend/src/services/organization.service.ts and its repositories.
pub mod Rows
pub mod Service
pub mod Members
pub mod Owners
pub mod Founding
pub mod History
pub mod Plans
pub mod Lockout
