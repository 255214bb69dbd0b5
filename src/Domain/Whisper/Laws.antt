-- ===== src/Domain/Whisper/Laws.antt =====
-- What `Whisper.Validate`, `NewWhisper` and the open predicates of internal/domain/whisper.go promise.
use secretmediabot.Base.{
  ℕ, ◌<◌, true, false, Option, none, some, inl, ◌≡◌, ◌≢◌, refl, ◌↔◌, arith, ℤ, pos, negsuc, is_zero,
  is_negative, is_some, length, Time, int_eq,
}
use secretmediabot.Domain.Status.{
  active, opening, opened, revoked, publishing, pending, is_valid_status, is_valid_publish,
}
use secretmediabot.Domain.Content.{validate_content}
use secretmediabot.Domain.Whisper.{
  Whisper, NewWhisperParams, validate_state, validate_whisper, checked_whisper, new_whisper,
}

abbrev pub IsAfter : Option Time → Time → Type 0
IsAfter none t = Unit
IsAfter (some s) t = t < s

-- Known states, a lease exactly in `publishing` and in `opening`, the time stamps that a state needs,
-- and deadlines after the creation.
pub record IsStateValid (w : Whisper) : Type 0 where
  pub status_known : is_valid_status w.status ≡ true
  pub publish_known : is_valid_publish w.publish_state ≡ true
  pub attempts : is_negative w.publish_attempt_count ≡ false
  pub scheduled : w.next_publish_attempt_at ≢ 0
  pub publish_lease : (w.publish_state ≡ publishing) ↔ (is_some w.publish_lease_until ≡ true)
  pub opening_lease : (w.status ≡ opening) ↔ (is_some w.opening_lease_until ≡ true)
  pub opened_time : w.status ≡ opened → is_some w.opened_at ≡ true
  pub revoked_time : w.status ≡ revoked → is_some w.revoked_at ≡ true
  pub has_creation : w.created_at ≢ 0
  pub expires_later : w.created_at < w.expires_at
  pub content_retained : IsAfter w.content_retain_until w.created_at
  pub metadata_retained : IsAfter w.metadata_retain_until w.created_at

IsStateValid-sound : (w : Whisper) → validate_state w ≡ none → IsStateValid w
unfolding validate_state
IsStateValid-sound w h = ground arith

IsStateValid-complete : (w : Whisper) → IsStateValid w → validate_state w ≡ none
unfolding validate_state
IsStateValid-complete w h = ground arith

-- Non-zero identifiers, a SHA-256 hash, two different participants and a valid content reference.
pub record IsIdentified (w : Whisper) : Type 0 where
  pub has_id : w.id ≢ 0
  pub has_draft : w.draft_id ≢ 0
  pub hash_length : length w.open_token_hash ≡ 32
  pub has_sender : w.sender_id ≢ pos 0
  pub has_recipient : w.recipient_id ≢ pos 0
  pub not_to_self : w.recipient_id ≢ w.sender_id
  pub has_chat : w.source_chat_id ≢ pos 0
  pub content_valid : validate_content w.content ≡ none

is_zero_iff : (n : ℤ) → (is_zero n ≡ true) ↔ (n ≡ pos 0)
is_zero_iff (pos n) = ground arith
is_zero_iff (negsuc n) = ground arith

abbrev pub IsValid : Whisper → Type 0
IsValid w = IsIdentified w × IsStateValid w

IsIdentified-sound :
    (w : Whisper) → validate_whisper w ≡ none → IsIdentified w × (validate_state w ≡ none)
unfolding validate_whisper
IsIdentified-sound w h = ground (
  arith,
  int_eq.beq_iff w.recipient_id w.sender_id,
  is_zero_iff w.sender_id,
  is_zero_iff w.recipient_id,
  is_zero_iff w.source_chat_id,
)

IsIdentified-complete :
    (w : Whisper) → IsIdentified w → validate_state w ≡ none → validate_whisper w ≡ none
unfolding validate_whisper
IsIdentified-complete w h s = ground (
  arith,
  int_eq.beq_iff w.recipient_id w.sender_id,
  is_zero_iff w.sender_id,
  is_zero_iff w.recipient_id,
  is_zero_iff w.source_chat_id,
)

-- `Validate` accepts a whisper exactly if its identifiers, hash, participants, content, state,
-- leases and deadlines are as `IsValid` says.
pub validate_whisper_iff : (w : Whisper) → (validate_whisper w ≡ none) ↔ IsValid w
validate_whisper_iff w = (
  λ h. let (i, s) = IsIdentified-sound w h in (i, IsStateValid-sound w s),
  λ v. IsIdentified-complete w v.0 (IsStateValid-complete w v.1),
)

checked-inl : (w v : Whisper) → checked_whisper w ≡ inl v → (v ≡ w) × (validate_whisper w ≡ none)
unfolding checked_whisper
checked-inl w v h = ground arith

-- A whisper that `NewWhisper` returns is valid, active and waiting for publication, and its first
-- publication attempt is due at its creation.
pub new_whisper-IsValid :
    (clock : Time) (fresh : ℕ) (p : NewWhisperParams) (w : Whisper)
    → new_whisper clock fresh p ≡ inl w
    → IsValid w
      × (w.status ≡ active)
      × (w.publish_state ≡ pending)
      × (w.next_publish_attempt_at ≡ w.created_at)
unfolding new_whisper
new_whisper-IsValid clock fresh p w h =
    let (e, v) = checked-inl _ w h in rw e ((validate_whisper_iff _).0 v, refl, refl, refl)
