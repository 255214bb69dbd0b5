-- ===== src/Domain/Draft/Laws.antt =====
-- What `Draft.Validate` and `NewDraft` of internal/domain/draft.go promise.
use secretmediabot.Base.{
  ℕ, ◌<◌, ◌≡◌, ◌≢◌, refl, ◌↔◌, Option, none, some, inl, true, arith, ℤ, pos, negsuc, is_zero,
  is_some, length, Time, int_eq,
}
use secretmediabot.Domain.Status.{
  awaiting_media, ingesting_media, completed, cancelled, is_valid_draft_state,
}
use secretmediabot.Domain.Draft.{
  Draft, NewDraftParams, validate_draft, checked_draft, new_draft, is_active_draft,
}

-- The lease, if any, ends after the start of the ingestion, which is recorded.
abbrev pub LeaseFits : Option Time → Option Time → Type 0
LeaseFits none started = Unit {0}
LeaseFits (some lease) none = ⊥
LeaseFits (some lease) (some started) = started < lease

pub record IsValid (d : Draft) : Type 0 where
  pub has_id : d.id ≢ 0
  pub has_sender : d.sender_id ≢ pos 0
  pub has_recipient : d.recipient_id ≢ pos 0
  pub not_to_self : d.recipient_id ≢ d.sender_id
  pub has_chat : d.source_chat_id ≢ pos 0
  pub hash_length : length d.compose_token_hash ≡ 32
  pub state_known : is_valid_draft_state d.state ≡ true
  pub has_creation : d.created_at ≢ 0
  pub expires_later : d.created_at < d.expires_at
  pub lease_iff : (d.state ≡ ingesting_media) ↔ (is_some d.ingest_lease_until ≡ true)
  pub lease_fits : LeaseFits d.ingest_lease_until d.ingest_started_at
  pub completed_time : d.state ≡ completed → is_some d.completed_at ≡ true
  pub cancelled_time : d.state ≡ cancelled → is_some d.cancelled_at ≡ true

is_zero_iff : (n : ℤ) → (is_zero n ≡ true) ↔ (n ≡ pos 0)
is_zero_iff (pos n) = ground arith
is_zero_iff (negsuc n) = ground arith

-- `Validate` accepts a draft exactly if its identifiers, hash, participants, expiry, lease and time
-- stamps are as `IsValid` says.
pub validate_draft_iff : (d : Draft) → (validate_draft d ≡ none) ↔ IsValid d
unfolding validate_draft
validate_draft_iff d = ground (
  arith,
  int_eq.beq_iff d.recipient_id d.sender_id,
  is_zero_iff d.sender_id,
  is_zero_iff d.recipient_id,
  is_zero_iff d.source_chat_id,
)

checked-inl : (d c : Draft) → checked_draft d ≡ inl c → (c ≡ d) × (validate_draft d ≡ none)
unfolding checked_draft
checked-inl d c h = ground arith

-- A draft that `NewDraft` returns is valid, awaits its content, and is active from its creation
-- until its expiry, the expiry excluded.
pub new_draft-IsValid :
    (clock : Time) (fresh : ℕ) (p : NewDraftParams) (d : Draft) (now : Time)
    → new_draft clock fresh p ≡ inl d
    → IsValid d
      × (d.state ≡ awaiting_media)
      × ((is_active_draft d now ≡ true) ↔ (now < d.expires_at))
unfolding new_draft is_active_draft
new_draft-IsValid clock fresh p d now h =
    let (e, v) = checked-inl _ d h in rw e ((validate_draft_iff _).0 v, refl, ground arith)
