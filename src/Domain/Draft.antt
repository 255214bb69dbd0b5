-- ===== src/Domain/Draft.antt =====
-- internal/domain/draft.go: a draft, its constructor and its validation.
pub mod Laws
use secretmediabot.Base.{
  ℕ, ◌+◌, ◌*◌, Bool, true, false, ◌&&◌, ◌||◌, not, differs, ◌≡◌, Option, none, some, Eq, ◌==◌,
  nat_eq, int_eq, ◌⊎◌, inl, inr, if◌then◌else◌, ℤ, is_zero, Uuid, Time, Bytes, nil_uuid,
  is_zero_time, after, before, sha256_size, length, arith, is_some, is_none,
}
use secretmediabot.Domain.Status.{
  DraftState, awaiting_media, ingesting_media, completed, cancelled, expired, draft_eq,
  is_valid_draft_state,
}
use secretmediabot.Domain.Errors.{
  Error, invalid_sender, invalid_recipient, invalid_source_chat, invalid_draft_expiry,
  invalid_draft_state, invalid_draft_id, invalid_compose_token_hash, invalid_ingest_lease,
  missing_completion_time, missing_cancellation_time,
}

pub record Draft : Type 0 where
  pub id : Uuid
  pub compose_token_hash : Bytes
  pub sender_id : ℤ
  pub recipient_id : ℤ
  pub source_chat_id : ℤ
  pub source_thread_id : Option ℤ
  pub source_reply_message_id : Option ℤ
  pub source_command_message_id : Option ℤ
  pub state : DraftState
  pub created_at : Time
  pub updated_at : Time
  pub expires_at : Time
  pub ingest_started_at : Option Time
  pub ingest_lease_until : Option Time
  pub completed_at : Option Time
  pub cancelled_at : Option Time

-- Nanoseconds of `10 * time.Minute`.
abbrev pub default_draft_ttl : ℕ
default_draft_ttl = 600_000_000_000

pub record NewDraftParams : Type 0 where
  pub id : Uuid
  pub compose_token_hash : Bytes
  pub sender_id : ℤ
  pub recipient_id : ℤ
  pub source_chat_id : ℤ
  pub source_thread_id : Option ℤ
  pub source_reply_message_id : Option ℤ
  pub source_command_message_id : Option ℤ
  pub created_at : Time
  pub expires_at : Time

-- `d.IngestLeaseUntil != nil && (d.IngestStartedAt == nil || !lease.After(*d.IngestStartedAt))`
bad_lease : Option Time → Option Time → Bool
bad_lease none started = false
bad_lease (some lease) none = true
bad_lease (some lease) (some started) = not (after lease started)

unfoldable pub validate_draft : Draft → Option Error
unfolding bad_lease is_valid_draft_state
validate_draft d =
    if d.id == nil_uuid
    then some invalid_draft_id
    else if is_zero d.sender_id
    then some invalid_sender
    else if is_zero d.recipient_id || d.recipient_id == d.sender_id
    then some invalid_recipient
    else if is_zero d.source_chat_id
    then some invalid_source_chat
    else if not (length d.compose_token_hash == sha256_size)
    then some invalid_compose_token_hash
    else if not (is_valid_draft_state d.state)
    then some invalid_draft_state
    else if is_zero_time d.created_at || not (after d.expires_at d.created_at)
    then some invalid_draft_expiry
    else if differs (d.state == ingesting_media) (is_some d.ingest_lease_until)
    then some invalid_ingest_lease
    else if bad_lease d.ingest_lease_until d.ingest_started_at
    then some invalid_ingest_lease
    else if d.state == completed && is_none d.completed_at
    then some missing_completion_time
    else if d.state == cancelled && is_none d.cancelled_at
    then some missing_cancellation_time
    else none

-- The literal of `NewDraft`.
abbrev pub draft_of : Uuid → Time → Time → NewDraftParams → Draft
draft_of id created expires p = record {
  id = id;
  compose_token_hash = p.compose_token_hash;
  sender_id = p.sender_id;
  recipient_id = p.recipient_id;
  source_chat_id = p.source_chat_id;
  source_thread_id = p.source_thread_id;
  source_reply_message_id = p.source_reply_message_id;
  source_command_message_id = p.source_command_message_id;
  state = awaiting_media;
  created_at = created;
  updated_at = created;
  expires_at = expires;
  ingest_started_at = none;
  ingest_lease_until = none;
  completed_at = none;
  cancelled_at = none;
}

-- The last lines of `NewDraft`: the draft, or what `Validate` finds wrong.
unfoldable pub checked_draft : Draft → Draft ⊎ Error
checked_draft d = elim (validate_draft d) [ some e ↦ inr e | none ↦ inl d ]

-- `NewDraft`. `clock` is `time.Now()` and `fresh` is `uuid.New()` at the call.
unfoldable pub new_draft : Time → Uuid → NewDraftParams → Draft ⊎ Error
new_draft clock fresh p =
    let created = if is_zero_time p.created_at then clock else p.created_at in
    let expires = if is_zero_time p.expires_at then created + default_draft_ttl else p.expires_at in
    checked_draft (draft_of (if p.id == nil_uuid then fresh else p.id) created expires p)

-- `Draft.IsActive`
unfoldable pub is_active_draft : Draft → Time → Bool
is_active_draft d now =
    (d.state == awaiting_media || d.state == ingesting_media) && before now d.expires_at

-- `Draft.IsExpired`
unfoldable pub is_expired_draft : Draft → Time → Bool
is_expired_draft d now = d.state == expired || not (before now d.expires_at)
