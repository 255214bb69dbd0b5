-- ===== src/Tests.antt =====
-- The theorems at concrete inputs.
mod Samples
mod Opening
mod Granted
mod Leases
mod Codes
mod Drafts
mod Guests
mod Values
