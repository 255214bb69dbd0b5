-- ===== src/Repository/Errors.antt =====
-- The error values of internal/repository/store.go and internal/repository/database.go.
pub data Error : Type 0 where
  not_found conflict invalid_input unauthorized expired not_active already_opened : Error
  lease_lost open_ambiguous ambiguous_recipient too_many_active_drafts whisper_rate_limit : Error
  -- An error of PostgreSQL that `translateError` passes on.
  database : Error
  update_dead guest_active_limit guest_rate_limit guest_opening_in_progress : Error

pub data Result {ℓ} (A : Type ℓ) : Type ℓ where
  ok : A → Result A
  err : Error → Result A
