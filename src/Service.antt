-- ===== src/Service.antt =====
-- internal/service: the encryption of payloads that are stored and read back.
pub mod Stored
pub mod RoundTrip
