-- ===== src/Domain/Whisper.antt =====
-- internal/domain/whisper.go: a whisper, its constructor, validation and predicates.
pub mod Laws
use secretmediabot.Base.{
  ℕ, ◌+◌, Bool, true, false, ◌&&◌, ◌||◌, not, differs, Option, none, some, ◌⊎◌, inl, inr, ◌==◌,
  nat_eq, int_eq, if◌then◌else◌, ℤ, is_zero, is_negative, pos, String, Uuid, Time, Bytes, Text, [],
  nil_uuid, is_zero_time, after, before, sha256_size, length, is_some, is_none,
}
use secretmediabot.Domain.Status.{
  WhisperStatus, active, opening, opened, expired, revoked, status_eq, is_valid_status,
  PublishState, pending, publishing, published, publish_eq, is_valid_publish,
}
use secretmediabot.Domain.Content.{ContentReference, validate_content}
use secretmediabot.Domain.Errors.{
  Error, invalid_whisper_id, invalid_whisper_draft_id, invalid_open_token_hash, invalid_sender,
  invalid_recipient, invalid_source_chat, invalid_whisper_status, invalid_publish_state,
  invalid_publish_attempts, invalid_publish_lease, invalid_opening_lease, missing_opened_time,
  missing_revoked_time, invalid_whisper_expiry, invalid_content_retention,
  invalid_metadata_retention,
}

pub record Whisper : Type 0 where
  pub id : Uuid
  pub draft_id : Uuid
  pub open_token_hash : Bytes
  pub sender_id : ℤ
  pub recipient_id : ℤ
  pub source_chat_id : ℤ
  pub source_thread_id : Option ℤ
  pub content : ContentReference
  pub one_time : Bool
  pub protect_content : Bool
  pub status : WhisperStatus
  pub publish_state : PublishState
  pub public_message_id : Option ℤ
  pub publish_attempt_count : ℤ
  pub publish_lease_until : Option Time
  pub next_publish_attempt_at : Time
  pub last_publish_error : Text
  pub opening_callback_query_id : String
  pub opening_reserved_at : Option Time
  pub opening_lease_until : Option Time
  pub created_at : Time
  pub updated_at : Time
  pub published_at : Option Time
  pub expires_at : Time
  pub opened_at : Option Time
  pub revoked_at : Option Time
  pub content_retain_until : Option Time
  pub metadata_retain_until : Option Time
  pub content_deleted_at : Option Time

-- Nanoseconds of 24 hours and of 30 days.
abbrev pub default_whisper_ttl : ℕ
default_whisper_ttl = 86_400_000_000_000

abbrev pub default_retention : ℕ
default_retention = 2_592_000_000_000_000

-- `t != nil && !t.After(created)`
unfoldable pub not_after : Option Time → Time → Bool
not_after none created = false
not_after (some t) created = not (after t created)

-- The tests of `Whisper.Validate` from the status on.
unfoldable pub validate_state : Whisper → Option Error
unfolding not_after is_valid_status is_valid_publish
validate_state w =
    if not (is_valid_status w.status)
    then some invalid_whisper_status
    else if not (is_valid_publish w.publish_state)
    then some invalid_publish_state
    else if is_negative w.publish_attempt_count
    then some invalid_publish_attempts
    else if is_zero_time w.next_publish_attempt_at
    then some invalid_publish_state
    else if differs (w.publish_state == publishing) (is_some w.publish_lease_until)
    then some invalid_publish_lease
    else if differs (w.status == opening) (is_some w.opening_lease_until)
    then some invalid_opening_lease
    else if w.status == opened && is_none w.opened_at
    then some missing_opened_time
    else if w.status == revoked && is_none w.revoked_at
    then some missing_revoked_time
    else if is_zero_time w.created_at || not (after w.expires_at w.created_at)
    then some invalid_whisper_expiry
    else if not_after w.content_retain_until w.created_at
    then some invalid_content_retention
    else if not_after w.metadata_retain_until w.created_at
    then some invalid_metadata_retention
    else none

unfoldable pub validate_whisper : Whisper → Option Error
validate_whisper w =
    if w.id == nil_uuid
    then some invalid_whisper_id
    else if w.draft_id == nil_uuid
    then some invalid_whisper_draft_id
    else if not (length w.open_token_hash == sha256_size)
    then some invalid_open_token_hash
    else if is_zero w.sender_id
    then some invalid_sender
    else if is_zero w.recipient_id || w.recipient_id == w.sender_id
    then some invalid_recipient
    else if is_zero w.source_chat_id
    then some invalid_source_chat
    else elim (validate_content w.content) [ some e ↦ some e | none ↦ validate_state w ]

pub record NewWhisperParams : Type 0 where
  pub id : Uuid
  pub draft_id : Uuid
  pub open_token_hash : Bytes
  pub sender_id : ℤ
  pub recipient_id : ℤ
  pub source_chat_id : ℤ
  pub source_thread_id : Option ℤ
  pub content : ContentReference
  pub one_time : Option Bool
  pub protect_content : Option Bool
  pub created_at : Time
  pub expires_at : Time
  pub content_retain_until : Option Time
  pub metadata_retain_until : Option Time

-- `boolDefault` and the default of a retention deadline.
abbrev pub or_default {ℓ} : {A : Type ℓ} → Option A → A → A
or_default none d = d
or_default (some a) d = a

-- The literal of `NewWhisper`.
abbrev pub whisper_of : Uuid → Time → Time → NewWhisperParams → Whisper
whisper_of id created expires p = record {
  id = id;
  draft_id = p.draft_id;
  open_token_hash = p.open_token_hash;
  sender_id = p.sender_id;
  recipient_id = p.recipient_id;
  source_chat_id = p.source_chat_id;
  source_thread_id = p.source_thread_id;
  content = p.content;
  one_time = or_default p.one_time true;
  protect_content = or_default p.protect_content true;
  status = active;
  publish_state = pending;
  public_message_id = none;
  publish_attempt_count = pos 0;
  publish_lease_until = none;
  next_publish_attempt_at = created;
  last_publish_error = [];
  opening_callback_query_id = "";
  opening_reserved_at = none;
  opening_lease_until = none;
  created_at = created;
  updated_at = created;
  published_at = none;
  expires_at = expires;
  opened_at = none;
  revoked_at = none;
  content_retain_until = some (or_default p.content_retain_until (created + default_retention));
  metadata_retain_until = some (or_default p.metadata_retain_until (created + default_retention));
  content_deleted_at = none;
}

-- The last lines of `NewWhisper`: the whisper, or what `Validate` finds wrong.
unfoldable pub checked_whisper : Whisper → Whisper ⊎ Error
checked_whisper w = elim (validate_whisper w) [ some e ↦ inr e | none ↦ inl w ]

-- `NewWhisper`. `clock` is `time.Now()` and `fresh` is `uuid.New()` at the call.
unfoldable pub new_whisper : Time → Uuid → NewWhisperParams → Whisper ⊎ Error
new_whisper clock fresh p =
    let created = if is_zero_time p.created_at then clock else p.created_at in
    let expires =
      if is_zero_time p.expires_at then created + default_whisper_ttl else p.expires_at in
    checked_whisper (whisper_of (if p.id == nil_uuid then fresh else p.id) created expires p)

-- `IsExpired`, `CanAttemptOpen`, `IsParticipant`, `CanRecipientOpen`.
unfoldable pub is_expired_whisper : Whisper → Time → Bool
is_expired_whisper w now = w.status == expired || not (before now w.expires_at)

unfoldable pub can_attempt_open : Whisper → Time → Bool
unfolding is_expired_whisper
can_attempt_open w now =
    w.status == active && w.publish_state == published && not (is_expired_whisper w now)

unfoldable pub is_participant : Whisper → ℤ → Bool
is_participant w user = not (is_zero user) && (user == w.sender_id || user == w.recipient_id)

unfoldable pub can_recipient_open : Whisper → ℤ → Time → Bool
unfolding can_attempt_open
can_recipient_open w user now = user == w.recipient_id && can_attempt_open w now

-- A retention deadline is due; `none` is kept for ever.
abbrev pub is_due : Option Time → Time → Bool
is_due none now = false
is_due (some t) now = not (before now t)

-- `ShouldDeleteContent` and `ShouldDeleteMetadata`.
unfoldable pub should_delete_content : Whisper → Time → Bool
should_delete_content w now = is_none w.content_deleted_at && is_due w.content_retain_until now

unfoldable pub should_delete_metadata : Whisper → Time → Bool
should_delete_metadata w now = is_due w.metadata_retain_until now
