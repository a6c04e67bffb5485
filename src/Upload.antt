-- ===== src/Upload.antt =====
-- Uploads under an organization's quota: apps/backend/src/services/upload.service.ts, quota.service.ts.
pub mod Quota
pub mod Service
pub mod Answers
pub mod Room
