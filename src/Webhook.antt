-- ===== src/Webhook.antt =====
-- The signatures of webhook requests: apps/backend/src/utils/svix-signature.ts.
pub mod Signature
pub mod Split
pub mod Fresh
