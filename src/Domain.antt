-- ===== src/Domain.antt =====
-- internal/domain.
pub mod Status
pub mod Lifecycle
pub mod Errors
pub mod Content
pub mod Draft
pub mod User
pub mod Whisper
pub mod Events
