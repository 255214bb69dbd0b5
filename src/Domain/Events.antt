-- ===== src/Domain/Events.antt =====
-- internal/domain/events.go: the outcome of an open attempt and the state of its delivery.
use secretmediabot.Base.{String, Bool, true, false}

pub data OpenEventOutcome : Type 0 where
  allowed denied_wrong_user denied_not_active denied_expired denied_revoked : OpenEventOutcome
  denied_already_opened denied_ambiguous delivery_failed : OpenEventOutcome
  other : String → OpenEventOutcome

unfoldable pub is_valid_outcome : OpenEventOutcome → Bool
is_valid_outcome (other s) = false
is_valid_outcome _ = true

-- `OpenEventOutcome.Allowed`
abbrev pub is_allowed : OpenEventOutcome → Bool
is_allowed allowed = true
is_allowed _ = false

pub data OpenDeliveryState : Type 0 where
  not_attempted reserved delivered failed : OpenDeliveryState
  other : String → OpenDeliveryState

unfoldable pub is_valid_delivery : OpenDeliveryState → Bool
is_valid_delivery (OpenDeliveryState.other s) = false
is_valid_delivery _ = true

-- `s == "reserved"` and `s == "delivered"`
abbrev pub is_reserved : OpenDeliveryState → Bool
is_reserved reserved = true
is_reserved _ = false

abbrev pub is_delivered : OpenDeliveryState → Bool
is_delivered delivered = true
is_delivered _ = false
