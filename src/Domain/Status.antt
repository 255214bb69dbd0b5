-- ===== src/Domain/Status.antt =====
-- The life cycles of internal/domain: whisper status, publication state and draft state. Each is a
-- Go string type; `other` stands for every string that is none of its constants.
use secretmediabot.Base.{
  String, Bool, true, false, ◌||◌, not, ◌≡◌, ◌↔◌, arith, Eq, ◌==◌, string_eq, if◌then◌else◌,
}
use text.Mathlib.TextEquality.{eq_iff}

pub data WhisperStatus : Type 0 where
  active opening opened expired revoked : WhisperStatus
  other : String → WhisperStatus

abbrev status_beq : WhisperStatus → WhisperStatus → Bool
status_beq active active = true
status_beq opening opening = true
status_beq opened opened = true
status_beq expired expired = true
status_beq revoked revoked = true
status_beq (other s) (other t) = s == t
status_beq _ _ = false

pub status_beq_iff : (a b : WhisperStatus) → (status_beq a b ≡ true) ↔ (a ≡ b)
status_beq_iff (other s) (other t) = ground (arith, eq_iff s t)
status_beq_iff a b = ground arith

instance abbrev pub status_eq : Eq WhisperStatus
status_eq = record { beq = status_beq; beq_iff = status_beq_iff }

unfoldable pub is_valid_status : WhisperStatus → Bool
is_valid_status (other s) = false
is_valid_status _ = true

-- The `switch s` of `WhisperStatus.CanTransitionTo`.
status_edges : WhisperStatus → WhisperStatus → Bool
status_edges active next = next == opening || next == expired || next == revoked
status_edges opening next = next == active || next == opened || next == expired || next == revoked
status_edges _ next = false

unfoldable pub can_transition_status : WhisperStatus → WhisperStatus → Bool
unfolding status_edges is_valid_status
can_transition_status s next =
    if not (is_valid_status s) || not (is_valid_status next) || s == next
    then false
    else status_edges s next

pub data PublishState : Type 0 where
  pending publishing published retry_wait failed : PublishState
  other : String → PublishState

abbrev publish_beq : PublishState → PublishState → Bool
publish_beq pending pending = true
publish_beq publishing publishing = true
publish_beq published published = true
publish_beq retry_wait retry_wait = true
publish_beq failed failed = true
publish_beq (PublishState.other s) (PublishState.other t) = s == t
publish_beq _ _ = false

pub publish_beq_iff : (a b : PublishState) → (publish_beq a b ≡ true) ↔ (a ≡ b)
publish_beq_iff (PublishState.other s) (PublishState.other t) = ground (arith, eq_iff s t)
publish_beq_iff a b = ground arith

instance abbrev pub publish_eq : Eq PublishState
publish_eq = record { beq = publish_beq; beq_iff = publish_beq_iff }

unfoldable pub is_valid_publish : PublishState → Bool
is_valid_publish (PublishState.other s) = false
is_valid_publish _ = true

-- The `switch s` of `PublishState.CanTransitionTo`.
publish_edges : PublishState → PublishState → Bool
publish_edges pending next = next == publishing || next == failed
publish_edges publishing next = next == published || next == retry_wait || next == failed
publish_edges retry_wait next = next == publishing || next == failed
publish_edges failed next = next == pending
publish_edges _ next = false

unfoldable pub can_transition_publish : PublishState → PublishState → Bool
unfolding publish_edges is_valid_publish
can_transition_publish s next =
    if not (is_valid_publish s) || not (is_valid_publish next) || s == next
    then false
    else publish_edges s next

pub data DraftState : Type 0 where
  awaiting_media ingesting_media completed cancelled expired : DraftState
  other : String → DraftState

abbrev draft_beq : DraftState → DraftState → Bool
draft_beq awaiting_media awaiting_media = true
draft_beq ingesting_media ingesting_media = true
draft_beq completed completed = true
draft_beq cancelled cancelled = true
draft_beq DraftState.expired DraftState.expired = true
draft_beq (DraftState.other s) (DraftState.other t) = s == t
draft_beq _ _ = false

pub draft_beq_iff : (a b : DraftState) → (draft_beq a b ≡ true) ↔ (a ≡ b)
draft_beq_iff (DraftState.other s) (DraftState.other t) = ground (arith, eq_iff s t)
draft_beq_iff a b = ground arith

instance abbrev pub draft_eq : Eq DraftState
draft_eq = record { beq = draft_beq; beq_iff = draft_beq_iff }

unfoldable pub is_valid_draft_state : DraftState → Bool
is_valid_draft_state (DraftState.other s) = false
is_valid_draft_state _ = true

-- The `switch s` of `DraftState.CanTransitionTo`.
draft_edges : DraftState → DraftState → Bool
draft_edges awaiting_media next =
    next == ingesting_media || next == cancelled || next == DraftState.expired
draft_edges ingesting_media next =
    next == awaiting_media || next == completed || next == cancelled || next == DraftState.expired
draft_edges _ next = false

unfoldable pub can_transition_draft : DraftState → DraftState → Bool
unfolding draft_edges is_valid_draft_state
can_transition_draft s next =
    if not (is_valid_draft_state s) || not (is_valid_draft_state next) || s == next
    then false
    else draft_edges s next
