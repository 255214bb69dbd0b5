-- ===== src/Repository/Opening/Params.antt =====
-- The parameters and results of internal/repository/opening.go, declared in
-- internal/repository/store.go.
use secretmediabot.Base.{ℕ, ℤ, Option, String, Uuid, Time, Bytes, Text}
use secretmediabot.Domain.Content.{PayloadKind, MediaType}
use secretmediabot.Domain.Whisper.{Whisper}
use secretmediabot.Repository.Mapping.{StoredEncryptedPayload}

pub record DeliveryMedia : Type 0 where
  pub blob_id : Uuid
  pub media_type : MediaType
  pub telegram_file_id : Text
  pub telegram_file_unique_id : String
  pub content_type : String
  pub plaintext_size : ℤ

pub record DeliveryContent : Type 0 where
  pub kind : PayloadKind
  pub text : Option StoredEncryptedPayload
  pub media : Option DeliveryMedia
  pub caption : Option StoredEncryptedPayload

pub record ReserveOpenParams : Type 0 where
  pub open_token_hash : Bytes
  pub telegram_user_id : ℤ
  pub callback_query_id : String
  pub now : Time
  pub lease_until : Time

pub record OpenReservation : Type 0 where
  pub whisper : Whisper
  pub event_id : ℕ
  pub content : DeliveryContent

pub record CompleteOpenParams : Type 0 where
  pub whisper_id : Uuid
  pub event_id : ℕ
  pub callback_query_id : String
  pub telegram_message_id : Option ℤ
  pub ephemeral_message_id : Option ℤ
  pub delete_at : Time
  pub now : Time

pub record FailOpenParams : Type 0 where
  pub whisper_id : Uuid
  pub event_id : ℕ
  pub callback_query_id : String
  pub error_code : Text
  pub now : Time
