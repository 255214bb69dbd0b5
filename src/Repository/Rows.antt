-- ===== src/Repository/Rows.antt =====
-- The rows of internal/repository/models.go and internal/repository/guest.go, and the tables of the database. A column whose CHECK
-- admits a fixed list of words has the type of those words, with `other` for any further one.
use secretmediabot.Base.{ℕ, ℤ, Bool, Option, List, String, Uuid, Time, Bytes, Text}
use secretmediabot.Domain.Status.{WhisperStatus, PublishState, DraftState}
use secretmediabot.Domain.Content.{PayloadKind, MediaType, MediaProvider}
use secretmediabot.Domain.User.{ChatType}
use secretmediabot.Domain.Events.{OpenEventOutcome, OpenDeliveryState}

pub record DraftRow : Type 0 where
  pub id : Uuid
  pub compose_token_hash : Bytes
  pub sender_id : ℤ
  pub recipient_id : ℤ
  pub source_chat_id : ℤ
  pub source_thread_id : Option ℤ
  pub source_reply_message_id : Option ℤ
  pub source_command_message_id : Option ℤ
  pub state : DraftState
  pub created_at : Time
  pub updated_at : Time
  pub expires_at : Time
  pub ingest_started_at : Option Time
  pub ingest_lease_until : Option Time
  pub completed_at : Option Time
  pub cancelled_at : Option Time

pub record WhisperRow : Type 0 where
  pub id : Uuid
  pub draft_id : Uuid
  pub open_token_hash : Bytes
  pub sender_id : ℤ
  pub recipient_id : ℤ
  pub source_chat_id : ℤ
  pub source_thread_id : Option ℤ
  pub payload_kind : PayloadKind
  pub media_provider : Option MediaProvider
  pub media_type : Option MediaType
  pub telegram_file_id : Option Text
  pub telegram_file_unique_id : Option String
  pub one_time : Bool
  pub protect_content : Bool
  pub status : WhisperStatus
  pub publish_state : PublishState
  pub publish_attempt_count : ℕ
  pub next_publish_attempt_at : Time
  pub publish_lease_until : Option Time
  pub last_publish_error : Option Text
  pub public_message_id : Option ℤ
  pub published_at : Option Time
  pub opening_callback_query_id : Option String
  pub opening_reserved_at : Option Time
  pub opening_lease_until : Option Time
  pub opened_at : Option Time
  pub revoked_at : Option Time
  pub created_at : Time
  pub updated_at : Time
  pub expires_at : Time
  pub retention_delete_at : Time

pub record MediaBlobRow : Type 0 where
  pub id : Uuid
  pub whisper_id : Uuid
  pub encryption_algorithm : String
  pub encryption_key_id : String
  pub nonce : Bytes
  pub ciphertext : Bytes
  pub ciphertext_sha256 : Bytes
  pub content_type : String
  pub plaintext_size_bytes : ℤ
  pub created_at : Time
  pub retention_delete_at : Time

pub data TextPurpose : Type 0 where
  text caption : TextPurpose

pub record EncryptedTextPayloadRow : Type 0 where
  pub id : Uuid
  pub whisper_id : Uuid
  pub purpose : TextPurpose
  pub encryption_algorithm : String
  pub encryption_key_id : String
  pub nonce : Bytes
  pub ciphertext : Bytes
  pub ciphertext_sha256 : Bytes
  pub plaintext_size_bytes : ℤ
  pub created_at : Time
  pub retention_delete_at : Time

pub record EncryptedCallbackTokenRow : Type 0 where
  pub id : Uuid
  pub whisper_id : Uuid
  pub encryption_algorithm : String
  pub encryption_key_id : String
  pub nonce : Bytes
  pub ciphertext : Bytes
  pub ciphertext_sha256 : Bytes
  pub plaintext_size_bytes : ℤ
  pub created_at : Time

pub record OpenEventRow : Type 0 where
  pub id : ℕ
  pub whisper_id : Uuid
  pub telegram_user_id : ℤ
  pub callback_query_id : Option String
  pub outcome : OpenEventOutcome
  pub allowed : Bool
  pub denial_reason : Option OpenEventOutcome
  pub delivery_state : OpenDeliveryState
  pub telegram_message_id : Option ℤ
  pub delivery_error : Option Text
  pub created_at : Time
  pub completed_at : Option Time

pub record EphemeralDeleteJobRow : Type 0 where
  pub id : ℕ
  pub chat_id : ℤ
  pub recipient_id : ℤ
  pub ephemeral_message_id : ℤ
  pub whisper_id : Option Uuid
  pub delete_after : Time
  pub next_attempt_at : Time
  pub attempt_count : ℕ
  pub lease_until : Option Time
  pub last_error : Option Text
  pub deleted_at : Option Time
  pub created_at : Time
  pub updated_at : Time

pub data UpdateState : Type 0 where
  processing processed failed : UpdateState

pub record ProcessedUpdateRow : Type 0 where
  pub telegram_update_id : ℤ
  pub update_type : String
  pub payload_sha256 : Bytes
  pub state : UpdateState
  pub attempt_count : ℕ
  pub lease_until : Option Time
  pub last_error : Option Text
  pub received_at : Time
  pub processed_at : Option Time
  pub updated_at : Time

pub record UserRow : Type 0 where
  pub telegram_user_id : ℤ
  pub username : Text
  pub first_name : Text
  pub last_name : Text
  pub is_bot : Bool
  pub language_code : Text
  pub has_started_private_chat : Bool
  pub first_seen_at : Time
  pub last_seen_at : Time
  pub updated_at : Time

pub record ChatRow : Type 0 where
  pub telegram_chat_id : ℤ
  pub chat_type : ChatType
  pub title : Text
  pub username : Text
  pub first_seen_at : Time
  pub last_seen_at : Time
  pub updated_at : Time

pub record ObservedChatMemberRow : Type 0 where
  pub chat_id : ℤ
  pub user_id : ℤ
  pub first_seen_at : Time
  pub last_seen_at : Time

pub data GuestState : Type 0 where
  awaiting_secret ingesting_secret ready opening opened expired cancelled : GuestState

pub record GuestRequestRow : Type 0 where
  pub id : Uuid
  pub token_hash : Bytes
  pub sender_id : ℤ
  pub target_user_id : Option ℤ
  pub target_username : Text
  pub source_chat_id : Option ℤ
  pub source_thread_id : Option ℤ
  pub source_message_id : Option ℤ
  pub guest_query_id : Option Text
  pub inline_query_id : Option Text
  pub inline_message_id : Text
  pub state : GuestState
  pub payload_kind : Option PayloadKind
  pub media_type : Option MediaType
  pub telegram_file_id : Option Text
  pub telegram_file_unique_id : Option String
  pub telegram_content_type : Option String
  pub target_claimed_at : Option Time
  pub ingest_started_at : Option Time
  pub ingest_lease_until : Option Time
  pub secret_ready_at : Option Time
  pub opening_reserved_at : Option Time
  pub opening_lease_until : Option Time
  pub opened_at : Option Time
  pub delivery_message_id : Option ℤ
  pub created_at : Time
  pub updated_at : Time
  pub expires_at : Time
  pub retention_delete_at : Time

pub record GuestPayloadRow : Type 0 where
  pub id : Uuid
  pub request_id : Uuid
  pub purpose : String
  pub encryption_algorithm : String
  pub encryption_key_id : String
  pub nonce : Bytes
  pub ciphertext : Bytes
  pub ciphertext_sha256 : Bytes
  pub content_type : String
  pub plaintext_size_bytes : ℤ
  pub created_at : Time
  pub retention_delete_at : Time

pub record GuestPrivateDeleteJobRow : Type 0 where
  pub id : ℕ
  pub request_id : Option Uuid
  pub chat_id : ℤ
  pub message_id : ℤ
  pub delete_after : Time
  pub next_attempt_at : Time
  pub attempt_count : ℕ
  pub lease_until : Option Time
  pub last_error : Text
  pub deleted_at : Option Time
  pub created_at : Time
  pub updated_at : Time

-- The tables, and the next values of the serial primary keys.
pub record Db : Type 0 where
  pub drafts : List DraftRow
  pub whispers : List WhisperRow
  pub blobs : List MediaBlobRow
  pub texts : List EncryptedTextPayloadRow
  pub callbacks : List EncryptedCallbackTokenRow
  pub events : List OpenEventRow
  pub jobs : List EphemeralDeleteJobRow
  pub updates : List ProcessedUpdateRow
  pub next_event_id : ℕ
  pub next_job_id : ℕ
  pub users : List UserRow
  pub chats : List ChatRow
  pub members : List ObservedChatMemberRow
  pub guest_requests : List GuestRequestRow
  pub guest_payloads : List GuestPayloadRow
  pub guest_jobs : List GuestPrivateDeleteJobRow
  pub next_guest_job_id : ℕ
