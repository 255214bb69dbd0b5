-- ===== src/Repository/Finalize/Rows.antt =====
-- internal/repository/finalize.go: the rows that `FinalizeDraft` inserts.
use secretmediabot.Base.{
  Option, none, some, String, Uuid, Time, Text, ◌==◌, string_eq, if◌then◌else◌, is_zero_time,
}
use secretmediabot.Domain.Content.{MediaReference, MediaType, MediaProvider}
use secretmediabot.Repository.Rows.{
  WhisperRow, MediaBlobRow, EncryptedTextPayloadRow, EncryptedCallbackTokenRow, TextPurpose,
}
use secretmediabot.Repository.Cleanup.{rank}
use secretmediabot.Repository.Finalize.Checks.{EncryptedBlobInput, FinalizeDraftParams, time_of}

abbrev provider_of : Option MediaReference → Option MediaProvider
provider_of none = none
provider_of (some m) = some m.provider

abbrev type_of : Option MediaReference → Option MediaType
type_of none = none
type_of (some m) = some m.media_type

abbrev file_of : Option MediaReference → Text → Option Text
file_of none file = none
file_of (some m) file = some file

abbrev unique_of : Option MediaReference → String → Option String
unique_of none file = none
unique_of (some m) file = if file == "" then none else some file

-- `whisperRowFromFinalize`
abbrev pub whisper_row_from_finalize : FinalizeDraftParams → Time → WhisperRow
whisper_row_from_finalize p now = record {
  id = p.whisper.id;
  draft_id = p.draft_id;
  open_token_hash = p.whisper.open_token_hash;
  sender_id = p.whisper.sender_id;
  recipient_id = p.whisper.recipient_id;
  source_chat_id = p.whisper.source_chat_id;
  source_thread_id = p.whisper.source_thread_id;
  payload_kind = p.whisper.content.kind;
  media_provider = provider_of p.whisper.content.media;
  media_type = type_of p.whisper.content.media;
  telegram_file_id = file_of p.whisper.content.media p.telegram_file_id;
  telegram_file_unique_id = unique_of p.whisper.content.media p.telegram_file_unique_id;
  one_time = p.whisper.one_time;
  protect_content = p.whisper.protect_content;
  status = p.whisper.status;
  publish_state = p.whisper.publish_state;
  publish_attempt_count = rank p.whisper.publish_attempt_count;
  next_publish_attempt_at = p.whisper.next_publish_attempt_at;
  publish_lease_until = none;
  last_publish_error = none;
  public_message_id = none;
  published_at = none;
  opening_callback_query_id = none;
  opening_reserved_at = none;
  opening_lease_until = none;
  opened_at = none;
  revoked_at = none;
  created_at = p.whisper.created_at;
  updated_at = now;
  expires_at = p.whisper.expires_at;
  retention_delete_at = time_of p.whisper.metadata_retain_until;
}

abbrev pub retention : EncryptedBlobInput → Time → Time
retention i fallback = if is_zero_time i.retain_until then fallback else i.retain_until

-- `mediaRow`
abbrev pub media_row : Uuid → EncryptedBlobInput → Time → Time → MediaBlobRow
media_row whisper i now fallback = record {
  id = i.id;
  whisper_id = whisper;
  encryption_algorithm = "AES-256-GCM";
  encryption_key_id = i.payload.key_id;
  nonce = i.payload.nonce;
  ciphertext = i.payload.ciphertext;
  ciphertext_sha256 = i.payload.ciphertext_sha256;
  content_type = i.content_type;
  plaintext_size_bytes = i.plaintext_size;
  created_at = now;
  retention_delete_at = retention i fallback;
}

-- `textPayloadRow`
abbrev pub text_payload_row :
    Uuid → TextPurpose → EncryptedBlobInput → Time → Time → EncryptedTextPayloadRow
text_payload_row whisper purpose i now fallback = record {
  id = i.id;
  whisper_id = whisper;
  purpose = purpose;
  encryption_algorithm = "AES-256-GCM";
  encryption_key_id = i.payload.key_id;
  nonce = i.payload.nonce;
  ciphertext = i.payload.ciphertext;
  ciphertext_sha256 = i.payload.ciphertext_sha256;
  plaintext_size_bytes = i.plaintext_size;
  created_at = now;
  retention_delete_at = retention i fallback;
}

-- `callbackTokenRow`
abbrev pub callback_token_row : Uuid → EncryptedBlobInput → Time → EncryptedCallbackTokenRow
callback_token_row whisper i now = record {
  id = i.id;
  whisper_id = whisper;
  encryption_algorithm = "AES-256-GCM";
  encryption_key_id = i.payload.key_id;
  nonce = i.payload.nonce;
  ciphertext = i.payload.ciphertext;
  ciphertext_sha256 = i.payload.ciphertext_sha256;
  plaintext_size_bytes = i.plaintext_size;
  created_at = now;
}
