-- ===== src/Repository/Finalize/Checks.antt =====
-- internal/repository/finalize.go: `validateFinalization` and the parameters that it checks.
use secretmediabot.Base.{
  ℤ, Bool, true, false, ◌&&◌, ◌||◌, not, Option, none, some, [], String, Uuid, Time, Text, ◌==◌,
  nat_eq, list_eq, string_eq, after, is_zero_time, is_positive, is_negative, is_zero, nil_uuid,
  is_some, length, sha256_size, trim_space,
}
use secretmediabot.Crypto.{EncryptedPayload}
use secretmediabot.Domain.Status.{active, pending, status_eq, publish_eq}
use secretmediabot.Domain.Content.{PayloadKind, MediaReference, MediaProvider, postgres_blob}
use secretmediabot.Domain.Whisper.{Whisper, validate_whisper}

pub record EncryptedBlobInput : Type 0 where
  pub id : Uuid
  pub payload : EncryptedPayload
  pub content_type : String
  pub plaintext_size : ℤ
  pub retain_until : Time

pub record FinalizeDraftParams : Type 0 where
  pub draft_id : Uuid
  pub sender_id : ℤ
  pub expected_lease_until : Time
  pub whisper : Whisper
  pub telegram_file_id : Text
  pub telegram_file_unique_id : String
  pub callback_token : Option EncryptedBlobInput
  pub text : Option EncryptedBlobInput
  pub media : Option EncryptedBlobInput
  pub caption : Option EncryptedBlobInput
  pub now : Time

-- `*t`, of a pointer that the checks have found.
abbrev pub time_of : Option Time → Time
time_of none = 0
time_of (some t) = t

-- `validateEncryptedInput`
unfoldable pub is_bad_input : Time → Bool → EncryptedBlobInput → Bool
is_bad_input now non_empty i =
    i.id == nil_uuid
    || i.payload.key_id == ""
    || not (length i.payload.nonce == 12)
    || length i.payload.ciphertext == 0
    || not (length i.payload.ciphertext_sha256 == sha256_size)
    || is_negative i.plaintext_size
    || (non_empty && is_zero i.plaintext_size)
    || (not (is_zero_time i.retain_until) && not (after i.retain_until now))

-- `validatePayloadRetention`
unfoldable pub is_bad_retention : Time → EncryptedBlobInput → Bool
is_bad_retention expected i = not (is_zero_time i.retain_until) && not (i.retain_until == expected)

unfoldable pub is_bad_blob : Time → Time → Bool → Option Uuid → Option EncryptedBlobInput → Bool
unfolding is_bad_input is_bad_retention
is_bad_blob now retain non_empty (some id) (some i) =
    not (i.id == id) || is_bad_input now non_empty i || is_bad_retention retain i
is_bad_blob now retain non_empty _ _ = true

-- `params.Whisper.Content.CaptionBlobID` and `params.Caption` agree.
unfoldable pub is_bad_caption : Time → Time → Option Uuid → Option EncryptedBlobInput → Bool
unfolding is_bad_blob
is_bad_caption now retain none none = false
is_bad_caption now retain id i = is_bad_blob now retain true id i

abbrev is_postgres : MediaProvider → Bool
is_postgres postgres_blob = true
is_postgres _ = false

unfoldable pub is_bad_media : Time → Time → FinalizeDraftParams → Option MediaReference → Bool
unfolding is_bad_blob is_bad_caption
is_bad_media now retain p none = true
is_bad_media now retain p (some m) =
    is_some p.text
    || not (is_postgres m.provider)
    || trim_space p.telegram_file_id == []
    || is_bad_blob now retain false m.blob_id p.media
    || is_bad_caption now retain p.whisper.content.caption_blob_id p.caption

-- The `switch` on the kind of the content.
unfoldable pub is_bad_content : Time → Time → FinalizeDraftParams → PayloadKind → Bool
unfolding is_bad_blob is_bad_media
is_bad_content now retain p PayloadKind.text =
    is_some p.media
    || is_some p.caption
    || not (p.telegram_file_id == [])
    || not (p.telegram_file_unique_id == "")
    || is_bad_blob now retain true p.whisper.content.text_blob_id p.text
is_bad_content now retain p PayloadKind.media = is_bad_media now retain p p.whisper.content.media
is_bad_content now retain p _ = true

unfoldable pub is_bad_token : Time → Option EncryptedBlobInput → Bool
unfolding is_bad_input
is_bad_token now none = true
is_bad_token now (some i) = is_bad_input now true i

-- Both deadlines are given, later than now, and equal.
unfoldable pub is_bad_deadline : Time → Option Time → Option Time → Bool
is_bad_deadline now (some content) (some metadata) =
    not (after content now) || not (after metadata now) || not (content == metadata)
is_bad_deadline now _ _ = true

-- `validateFinalization`, whose errors are all `ErrInvalidInput`.
unfoldable pub is_bad_finalization : FinalizeDraftParams → Time → Bool
unfolding is_bad_token is_bad_deadline is_bad_content
is_bad_finalization p now =
    p.draft_id == nil_uuid
    || not (is_positive p.sender_id)
    || is_zero_time p.expected_lease_until
    || is_some (validate_whisper p.whisper)
    || not (p.whisper.status == active && p.whisper.publish_state == pending)
    || is_bad_token now p.callback_token
    || is_bad_deadline now p.whisper.content_retain_until p.whisper.metadata_retain_until
    || not (length p.whisper.open_token_hash == sha256_size)
    || is_bad_content now (time_of p.whisper.content_retain_until) p p.whisper.content.kind
