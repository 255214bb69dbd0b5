-- ===== src/Repository.antt =====
-- internal/repository.
pub mod Errors
pub mod Rows
pub mod Tx
pub mod Success
pub mod Mapping
pub mod Statements
pub mod Opening
pub mod Cleanup
pub mod Updates
pub mod Publish
pub mod Identity
pub mod Guest
pub mod Drafts
pub mod Finalize
