-- ===== src/Examples.antt =====
-- Tests, and the theorems at concrete inputs.
mod Gpu
mod Import
mod Limiter
mod Expiry
mod Auth
mod Upload
mod Org
mod Gallery
mod Cleanup
mod Webhook
mod Faces
