-- ===== src/Domain/Errors.antt =====
-- The error values of internal/domain.
pub data Error : Type 0 where
  invalid_sender invalid_recipient invalid_source_chat : Error
  invalid_draft_expiry invalid_draft_state invalid_draft_id invalid_compose_token_hash : Error
  invalid_ingest_lease missing_completion_time missing_cancellation_time : Error
  invalid_media_provider invalid_media_type empty_media_reference invalid_media_blob_id : Error
  invalid_media_size : Error
  invalid_payload_kind invalid_text_blob_id invalid_caption_blob_id missing_media_reference : Error
  unexpected_text_blob unexpected_media unexpected_caption : Error
  invalid_whisper_id invalid_whisper_draft_id invalid_open_token_hash invalid_whisper_status : Error
  invalid_publish_state invalid_whisper_expiry invalid_content_retention : Error
  invalid_metadata_retention invalid_publish_attempts invalid_publish_lease : Error
  invalid_opening_lease missing_opened_time missing_revoked_time : Error
