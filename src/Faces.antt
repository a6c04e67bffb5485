-- ===== src/Faces.antt =====
-- Faces of photos: apps/backend/src/services/face.service.ts and repositories/face.repository.ts.
pub mod Rows
pub mod Detect
pub mod Found
pub mod People
pub mod Recognize
pub mod Tenancy
pub mod Separate
pub mod Queueing
pub mod AllQueued
