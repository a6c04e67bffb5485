-- ===== src/Assets.antt =====
-- Stored media: the asset rows and the objects in the bucket.
pub mod Store
