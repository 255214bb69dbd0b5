-- ===== src/Repository/Guest/Params.antt =====
-- internal/repository/guest.go: the parameters of the calls on guest requests.
use secretmediabot.Base.{ℤ, Option, String, Uuid, Time, Bytes, Text}
use secretmediabot.Domain.Content.{PayloadKind, MediaType}
use secretmediabot.Repository.Guest.Values.{GuestPayload}

pub record GuestClaimIngestParams : Type 0 where
  pub token_hash : Bytes
  pub sender_id : ℤ
  pub now : Time
  pub lease_until : Time

pub record GuestReleaseIngestParams : Type 0 where
  pub request_id : Uuid
  pub sender_id : ℤ
  pub expected_lease_until : Time
  pub now : Time

pub record GuestFinalizeParams : Type 0 where
  pub request_id : Uuid
  pub sender_id : ℤ
  pub expected_lease_until : Time
  pub kind : PayloadKind
  pub media_type : MediaType
  pub telegram_file_id : Text
  pub telegram_file_unique : String
  pub telegram_content : String
  pub text : Option GuestPayload
  pub media : Option GuestPayload
  pub caption : Option GuestPayload
  pub now : Time

pub record GuestCompleteOpenParams : Type 0 where
  pub request_id : Uuid
  pub expected_lease_until : Time
  pub message_id : ℤ
  pub delete_at : Time
  pub now : Time

pub record GuestFailOpenParams : Type 0 where
  pub request_id : Uuid
  pub expected_lease_until : Time
  pub now : Time

pub record CancelGuestParams : Type 0 where
  pub sender_id : ℤ
  pub now : Time

pub record CancelGuestRequestByIdParams : Type 0 where
  pub request_id : Uuid
  pub sender_id : ℤ
  pub now : Time
