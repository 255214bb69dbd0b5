-- ===== src/Repository/Guest/Values.antt =====
-- internal/repository/guest.go: the requests and payloads that callers see. An empty string that stands
-- for a missing kind or type is `none`.
use secretmediabot.Base.{
  ℤ, Bool, true, false, ◌||◌, not, Option, none, some, [], String, Uuid, Time, Bytes, Text, ◌==◌,
  nat_eq, string_eq, list_eq, ◌≡◌, ◌↔◌, arith, after, is_positive, nil_uuid, length, sha256_size,
  Eq,
}
use secretmediabot.Domain.Content.{PayloadKind, MediaType}
use secretmediabot.Repository.Rows.{
  GuestState, awaiting_secret, ingesting_secret, ready, opening, opened, expired, cancelled,
  GuestRequestRow, GuestPayloadRow,
}
use secretmediabot.Repository.Mapping.{StoredEncryptedPayload}

abbrev guest_state_beq : GuestState → GuestState → Bool
guest_state_beq awaiting_secret awaiting_secret = true
guest_state_beq ingesting_secret ingesting_secret = true
guest_state_beq ready ready = true
guest_state_beq opening opening = true
guest_state_beq opened opened = true
guest_state_beq expired expired = true
guest_state_beq cancelled cancelled = true
guest_state_beq _ _ = false

pub guest_state_beq_iff : (a b : GuestState) → (guest_state_beq a b ≡ true) ↔ (a ≡ b)
guest_state_beq_iff a b = ground arith

instance abbrev pub guest_state_eq : Eq GuestState
guest_state_eq = record { beq = guest_state_beq; beq_iff = guest_state_beq_iff }

pub record GuestRequest : Type 0 where
  pub id : Uuid
  pub token_hash : Bytes
  pub sender_id : ℤ
  pub target_user_id : Option ℤ
  pub target_username : Text
  pub source_chat_id : Option ℤ
  pub source_thread_id : Option ℤ
  pub source_message_id : Option ℤ
  pub guest_query_id : Text
  pub inline_query_id : Text
  pub inline_message_id : Text
  pub state : GuestState
  pub payload_kind : Option PayloadKind
  pub media_type : Option MediaType
  pub telegram_file_id : Text
  pub telegram_file_unique : String
  pub telegram_content : String
  pub target_claimed_at : Option Time
  pub ingest_started_at : Option Time
  pub ingest_lease_until : Option Time
  pub secret_ready_at : Option Time
  pub opening_reserved_at : Option Time
  pub opening_lease_until : Option Time
  pub opened_at : Option Time
  pub delivery_message_id : Option ℤ
  pub created_at : Time
  pub updated_at : Time
  pub expires_at : Time
  pub retention_delete_at : Time

pub record GuestPayload : Type 0 where
  pub id : Uuid
  pub request_id : Uuid
  pub purpose : String
  pub encryption_algorithm : String
  pub encryption_key_id : String
  pub nonce : Bytes
  pub ciphertext : Bytes
  pub ciphertext_sha256 : Bytes
  pub content_type : String
  pub plaintext_size : ℤ
  pub retain_until : Time

-- `stringValue`
abbrev pub text_value : Option Text → Text
text_value none = []
text_value (some t) = t

abbrev pub string_value : Option String → String
string_value none = ""
string_value (some s) = s

-- `guestRequestRow.toGuestRequest`
abbrev pub to_guest_request : GuestRequestRow → GuestRequest
to_guest_request r = record {
  id = r.id;
  token_hash = r.token_hash;
  sender_id = r.sender_id;
  target_user_id = r.target_user_id;
  target_username = r.target_username;
  source_chat_id = r.source_chat_id;
  source_thread_id = r.source_thread_id;
  source_message_id = r.source_message_id;
  guest_query_id = text_value r.guest_query_id;
  inline_query_id = text_value r.inline_query_id;
  inline_message_id = r.inline_message_id;
  state = r.state;
  payload_kind = r.payload_kind;
  media_type = r.media_type;
  telegram_file_id = text_value r.telegram_file_id;
  telegram_file_unique = string_value r.telegram_file_unique_id;
  telegram_content = string_value r.telegram_content_type;
  target_claimed_at = r.target_claimed_at;
  ingest_started_at = r.ingest_started_at;
  ingest_lease_until = r.ingest_lease_until;
  secret_ready_at = r.secret_ready_at;
  opening_reserved_at = r.opening_reserved_at;
  opening_lease_until = r.opening_lease_until;
  opened_at = r.opened_at;
  delivery_message_id = r.delivery_message_id;
  created_at = r.created_at;
  updated_at = r.updated_at;
  expires_at = r.expires_at;
  retention_delete_at = r.retention_delete_at;
}

-- `guestPayloadRowFromDomain`, with `time.Now()`.
abbrev pub guest_payload_row_from_domain : Time → GuestPayload → GuestPayloadRow
guest_payload_row_from_domain clock i = record {
  id = i.id;
  request_id = i.request_id;
  purpose = i.purpose;
  encryption_algorithm = i.encryption_algorithm;
  encryption_key_id = i.encryption_key_id;
  nonce = i.nonce;
  ciphertext = i.ciphertext;
  ciphertext_sha256 = i.ciphertext_sha256;
  content_type = i.content_type;
  plaintext_size_bytes = i.plaintext_size;
  created_at = clock;
  retention_delete_at = i.retain_until;
}

-- `guestPayloadRow.toStored`; the column holds 32 bytes of a hash.
abbrev pub guest_to_stored : GuestPayloadRow → StoredEncryptedPayload
guest_to_stored r = record {
  id = r.id;
  encryption_algorithm = r.encryption_algorithm;
  encryption_key_id = r.encryption_key_id;
  nonce = r.nonce;
  ciphertext = r.ciphertext;
  ciphertext_sha256 = r.ciphertext_sha256;
  content_type = r.content_type;
  plaintext_size = r.plaintext_size_bytes;
  retain_until = r.retention_delete_at;
}

-- `validateGuestPayload`
unfoldable pub is_bad_payload : Time → GuestPayload → Bool
is_bad_payload now i =
    i.id == nil_uuid
    || i.request_id == nil_uuid
    || i.purpose == ""
    || i.encryption_key_id == ""
    || not (length i.nonce == 12)
    || length i.ciphertext == 0
    || not (length i.ciphertext_sha256 == sha256_size)
    || not (is_positive i.plaintext_size)
    || not (after i.retain_until now)
