-- ===== src/Gallery.antt =====
-- The lists of photos that are read page by page: apps/backend/src/services/asset.service.ts and
-- repositories/asset.repository.ts.
pub mod Rows
pub mod Service
pub mod Order
pub mod Split
pub mod Pages
