-- ===== src/Repository/Opening.antt =====
-- internal/repository/opening.go.
pub mod Params
pub mod Audit
pub mod Content
pub mod Reserve
pub mod Finish
pub mod Tally
pub mod Capped
pub mod Once
pub mod Clear
pub mod Ambiguous
pub mod Granted
pub mod Delivered
