-- ===== src/Import.antt =====
-- Cloud import: apps/backend/src/services/import.service.ts and repositories/import.repository.ts.
pub mod Db
pub mod Listing
pub mod Folder
pub mod Rows
pub mod Coverage
pub mod Pages
pub mod Ends
pub mod Files
pub mod Settled
pub mod Kept
pub mod Held
pub mod Stuck
