-- ===== src/Domain/Content.antt =====
-- internal/domain/media.go and internal/domain/content.go: what a whisper refers to.
use secretmediabot.Base.{
  String, Bool, true, false, not, Option, none, some, [], ◌==◌, nat_eq, list_eq, string_eq,
  if◌then◌else◌, ℤ, is_negative, Uuid, Text, nil_uuid, trim_space, is_some,
}
use secretmediabot.Domain.Errors.{
  Error, invalid_media_provider, invalid_media_type, empty_media_reference, invalid_media_blob_id,
  invalid_media_size, invalid_payload_kind, invalid_text_blob_id, invalid_caption_blob_id,
  missing_media_reference, unexpected_text_blob, unexpected_media, unexpected_caption,
}

pub data MediaType : Type 0 where
  photo voice video audio document : MediaType
  other : String → MediaType

unfoldable pub is_valid_media_type : MediaType → Bool
is_valid_media_type (other s) = false
is_valid_media_type _ = true

pub data MediaProvider : Type 0 where
  telegram postgres_blob : MediaProvider
  other : String → MediaProvider

unfoldable pub is_valid_provider : MediaProvider → Bool
is_valid_provider (MediaProvider.other s) = false
is_valid_provider _ = true

pub record MediaReference : Type 0 where
  pub provider : MediaProvider
  pub media_type : MediaType
  pub ref : Text
  pub unique_ref : String
  pub blob_id : Option Uuid
  pub content_type : String
  pub size_bytes : ℤ

-- `p == nil || *p == uuid.Nil`
abbrev pub is_nil_id : Option Uuid → Bool
is_nil_id none = true
is_nil_id (some id) = id == nil_uuid

-- The `switch m.Provider` of `MediaReference.Validate`.
validate_provider : MediaProvider → MediaReference → Option Error
unfolding trim_space
validate_provider telegram m = if trim_space m.ref == [] then some empty_media_reference else none
validate_provider postgres_blob m =
    if is_nil_id m.blob_id
    then some invalid_media_blob_id
    else if trim_space m.ref == []
    then some empty_media_reference
    else none
validate_provider _ m = some empty_media_reference

unfoldable pub validate_media : MediaReference → Option Error
unfolding validate_provider is_valid_provider is_valid_media_type
validate_media m =
    if not (is_valid_provider m.provider)
    then some invalid_media_provider
    else if not (is_valid_media_type m.media_type)
    then some invalid_media_type
    else if is_negative m.size_bytes
    then some invalid_media_size
    else validate_provider m.provider m

pub data PayloadKind : Type 0 where
  text media : PayloadKind
  other : String → PayloadKind

unfoldable pub is_valid_kind : PayloadKind → Bool
is_valid_kind (PayloadKind.other s) = false
is_valid_kind _ = true

pub record ContentReference : Type 0 where
  pub kind : PayloadKind
  pub text_blob_id : Option Uuid
  pub media : Option MediaReference
  pub caption_blob_id : Option Uuid

-- The `case PayloadText` of `ContentReference.Validate`.
validate_text : ContentReference → Option Error
validate_text c =
    if is_nil_id c.text_blob_id
    then some invalid_text_blob_id
    else if is_some c.media
    then some unexpected_media
    else if is_some c.caption_blob_id
    then some unexpected_caption
    else none

-- The last test of the `case PayloadMedia`: a caption reference, if any, is not the nil UUID.
validate_caption : Option Uuid → Option Error
validate_caption none = none
validate_caption (some id) = if id == nil_uuid then some invalid_caption_blob_id else none

validate_media_content : Option MediaReference → ContentReference → Option Error
unfolding validate_caption
validate_media_content none c = some missing_media_reference
validate_media_content (some m) c = elim (validate_media m) [
  | some e ↦ some e
  | none ↦ validate_caption c.caption_blob_id
]

validate_kind : PayloadKind → ContentReference → Option Error
unfolding validate_text validate_media_content
validate_kind text c = validate_text c
validate_kind media c =
    if is_some c.text_blob_id then some unexpected_text_blob else validate_media_content c.media c
validate_kind _ c = none

unfoldable pub validate_content : ContentReference → Option Error
unfolding validate_kind is_valid_kind
validate_content c =
    if not (is_valid_kind c.kind) then some invalid_payload_kind else validate_kind c.kind c
