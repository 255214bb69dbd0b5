-- ===== src/Repository/Mapping.antt =====
-- internal/repository/mapping.go: from rows to the values that the services see.
use secretmediabot.Base.{
  ℕ, ◌≡◌, arith, ℤ, pos, Bool, true, false, ◌&&◌, Option, none, some, [], String, Uuid, Time, Bytes,
  Text, ◌==◌, nat_eq,
}
use secretmediabot.Base.Table.{find_where, find}
use secretmediabot.Domain.Content.{
  MediaReference, ContentReference, PayloadKind, MediaType, MediaProvider,
}
use secretmediabot.Domain.Whisper.{Whisper}
use secretmediabot.Repository.Errors.{Error, Result, ok, err, conflict}
use secretmediabot.Repository.Rows.{
  WhisperRow, MediaBlobRow, EncryptedTextPayloadRow, EncryptedCallbackTokenRow, TextPurpose, Db,
}
use secretmediabot.Repository.Tx.{Tx}

-- What the code takes from outside at a call: `time.Now()`, `String` of google/uuid, and the table of
-- `unicode.ToLower` beyond ASCII.
pub record Env : Type 0 where
  pub clock : Time
  pub uuid_text : Uuid → Text
  pub lower_beyond : ℕ → ℕ

pub record StoredEncryptedPayload : Type 0 where
  pub id : Uuid
  pub encryption_algorithm : String
  pub encryption_key_id : String
  pub nonce : Bytes
  pub ciphertext : Bytes
  pub ciphertext_sha256 : Bytes
  pub content_type : String
  pub plaintext_size : ℤ
  pub retain_until : Time

abbrev pub media_to_stored : MediaBlobRow → StoredEncryptedPayload
media_to_stored r = record {
  id = r.id;
  encryption_algorithm = r.encryption_algorithm;
  encryption_key_id = r.encryption_key_id;
  nonce = r.nonce;
  ciphertext = r.ciphertext;
  ciphertext_sha256 = r.ciphertext_sha256;
  content_type = r.content_type;
  plaintext_size = r.plaintext_size_bytes;
  retain_until = r.retention_delete_at;
}

abbrev pub text_to_stored : EncryptedTextPayloadRow → StoredEncryptedPayload
text_to_stored r = record {
  id = r.id;
  encryption_algorithm = r.encryption_algorithm;
  encryption_key_id = r.encryption_key_id;
  nonce = r.nonce;
  ciphertext = r.ciphertext;
  ciphertext_sha256 = r.ciphertext_sha256;
  content_type = "";
  plaintext_size = r.plaintext_size_bytes;
  retain_until = r.retention_delete_at;
}

abbrev pub callback_to_stored : EncryptedCallbackTokenRow → StoredEncryptedPayload
callback_to_stored r = record {
  id = r.id;
  encryption_algorithm = r.encryption_algorithm;
  encryption_key_id = r.encryption_key_id;
  nonce = r.nonce;
  ciphertext = r.ciphertext;
  ciphertext_sha256 = r.ciphertext_sha256;
  content_type = "";
  plaintext_size = r.plaintext_size_bytes;
  retain_until = 0;
}

-- The primary keys.
abbrev pub whisper_key : WhisperRow → Uuid
whisper_key w = w.id

abbrev pub is_purpose : TextPurpose → TextPurpose → Bool
is_purpose TextPurpose.text TextPurpose.text = true
is_purpose TextPurpose.caption TextPurpose.caption = true
is_purpose _ _ = false

-- The media, text and caption rows of a whisper.
unfoldable pub media_row_of : Uuid → Db → Option MediaBlobRow
media_row_of id db = find_where (λ r. r.whisper_id == id) db.blobs

unfoldable pub text_row_of : Uuid → TextPurpose → Db → Option EncryptedTextPayloadRow
text_row_of id purpose db =
    find_where (λ r. r.whisper_id == id && is_purpose r.purpose purpose) db.texts

-- `whisperProjection`: a whisper with its payload rows, LEFT JOINed.
pub record WhisperProjection : Type 0 where
  pub row : WhisperRow
  pub media_blob : Option MediaBlobRow
  pub text_payload : Option EncryptedTextPayloadRow
  pub caption_payload : Option EncryptedTextPayloadRow

abbrev projection : Db → WhisperRow → WhisperProjection
projection db w = record {
  row = w;
  media_blob = media_row_of w.id db;
  text_payload = text_row_of w.id TextPurpose.text db;
  caption_payload = text_row_of w.id TextPurpose.caption db;
}

unfoldable pub load_whisper_projection : Uuid → Tx WhisperProjection
load_whisper_projection id db = elim (find whisper_key id db.whispers) [
  | none ↦ (err Error.not_found, db)
  | some w ↦ (ok (projection db w), db)
]

abbrev or_nil : Option Text → Text
or_nil none = []
or_nil (some t) = t

abbrev or_empty : Option String → String
or_empty none = ""
or_empty (some s) = s

-- The literal of `toDomain`.
abbrev pub domain_of : WhisperRow → Bytes → ContentReference → Option Time → Whisper
domain_of r hash content retain = record {
  id = r.id;
  draft_id = r.draft_id;
  open_token_hash = hash;
  sender_id = r.sender_id;
  recipient_id = r.recipient_id;
  source_chat_id = r.source_chat_id;
  source_thread_id = r.source_thread_id;
  content = content;
  one_time = r.one_time;
  protect_content = r.protect_content;
  status = r.status;
  publish_state = r.publish_state;
  public_message_id = r.public_message_id;
  publish_attempt_count = pos r.publish_attempt_count;
  publish_lease_until = r.publish_lease_until;
  next_publish_attempt_at = r.next_publish_attempt_at;
  last_publish_error = or_nil r.last_publish_error;
  opening_callback_query_id = or_empty r.opening_callback_query_id;
  opening_reserved_at = r.opening_reserved_at;
  opening_lease_until = r.opening_lease_until;
  created_at = r.created_at;
  updated_at = r.updated_at;
  published_at = r.published_at;
  expires_at = r.expires_at;
  opened_at = r.opened_at;
  revoked_at = r.revoked_at;
  content_retain_until = retain;
  metadata_retain_until = some r.retention_delete_at;
  content_deleted_at = none;
}

abbrev stored_media : Env → MediaBlobRow → MediaProvider → MediaType → MediaReference
stored_media env blob provider kind = record {
  provider = provider;
  media_type = kind;
  ref = env.uuid_text blob.id;
  unique_ref = "";
  blob_id = some blob.id;
  content_type = blob.content_type;
  size_bytes = blob.plaintext_size_bytes;
}

abbrev media_content :
    Env
    → Option MediaBlobRow
    → Option MediaProvider
    → Option MediaType
    → Option Uuid
    → Result (ContentReference × Option Time)
media_content env (some blob) (some provider) (some kind) caption = ok (
  record {
    kind = PayloadKind.media;
    text_blob_id = none;
    media = some (stored_media env blob provider kind);
    caption_blob_id = caption;
  },
  some blob.retention_delete_at,
)
media_content env _ _ _ caption = err conflict

abbrev text_content : Option EncryptedTextPayloadRow → Result (ContentReference × Option Time)
text_content none = err conflict
text_content (some r) = ok (
  record {
    kind = PayloadKind.text;
    text_blob_id = some r.id;
    media = none;
    caption_blob_id = none;
  },
  some r.retention_delete_at,
)

abbrev caption_id : Option EncryptedTextPayloadRow → Option Uuid
caption_id none = none
caption_id (some r) = some r.id

-- The `switch content.Kind` of `toDomain`.
abbrev content_of : Env → PayloadKind → WhisperProjection → Result (ContentReference × Option Time)
content_of env PayloadKind.text r = text_content r.text_payload
content_of env PayloadKind.media r =
    media_content env r.media_blob r.row.media_provider r.row.media_type
      (caption_id r.caption_payload)
content_of env _ r = err conflict

unfoldable pub to_domain : Env → Bytes → WhisperProjection → Result Whisper
to_domain env hash r = elim (content_of env r.row.payload_kind r) [
  | err e ↦ err e
  | ok c ↦ ok (domain_of r.row (elim hash [ [] ↦ r.row.open_token_hash | given ↦ given ]) c.0 c.1)
]

pub load_whisper_projection_state : (id : Uuid) (db : Db) → (load_whisper_projection id db).1 ≡ db
unfolding load_whisper_projection
load_whisper_projection_state id db = ground arith
