-- ===== src/Repository/Opening/Content.antt =====
-- internal/repository/opening.go: `loadDeliveryContent`.
use secretmediabot.Base.{
  Option, none, some, String, Text, [], ◌==◌, nat_eq, int_eq, string_eq, list_eq, if◌then◌else◌,
}
use secretmediabot.Domain.Status.{status_eq, publish_eq}
use secretmediabot.Domain.Content.{PayloadKind, MediaType}
use secretmediabot.Repository.Errors.{Result, ok, err, not_found, conflict}
use secretmediabot.Repository.Rows.{
  WhisperRow, MediaBlobRow, EncryptedTextPayloadRow, TextPurpose, Db,
}
use secretmediabot.Repository.Tx.{Tx}
use secretmediabot.Repository.Mapping.{
  StoredEncryptedPayload, text_to_stored, media_row_of, text_row_of,
}
use secretmediabot.Repository.Opening.Params.{DeliveryMedia, DeliveryContent}

abbrev pub or_empty : Option String → String
or_empty none = ""
or_empty (some s) = s

-- The media handle of `loadDeliveryContent`.
unfoldable pub delivery_media :
    WhisperRow → Option MediaType → Option Text → Option MediaBlobRow → Result DeliveryMedia
delivery_media w (some kind) (some file) none = if file == [] then err conflict else err not_found
delivery_media w (some kind) (some file) (some blob) =
    if file == []
    then err conflict
    else ok (record {
      blob_id = blob.id;
      media_type = kind;
      telegram_file_id = file;
      telegram_file_unique_id = or_empty w.telegram_file_unique_id;
      content_type = blob.content_type;
      plaintext_size = blob.plaintext_size_bytes;
    })
delivery_media w _ _ blob = err conflict

abbrev pub stored_text : Option EncryptedTextPayloadRow → Option StoredEncryptedPayload
stored_text none = none
stored_text (some r) = some (text_to_stored r)

unfoldable pub text_delivery : Option EncryptedTextPayloadRow → Result DeliveryContent
text_delivery none = err not_found
text_delivery (some r) = ok (record {
  kind = PayloadKind.text;
  text = some (text_to_stored r);
  media = none;
  caption = none;
})

unfoldable pub media_delivery :
    Result DeliveryMedia → Option EncryptedTextPayloadRow → Result DeliveryContent
media_delivery (err e) caption = err e
media_delivery (ok m) caption = ok (record {
  kind = PayloadKind.media;
  text = none;
  media = some m;
  caption = stored_text caption;
})

unfoldable pub delivery_content : PayloadKind → WhisperRow → Db → Result DeliveryContent
unfolding text_delivery media_delivery delivery_media
delivery_content PayloadKind.text w db = text_delivery (text_row_of w.id TextPurpose.text db)
delivery_content PayloadKind.media w db =
    media_delivery (delivery_media w w.media_type w.telegram_file_id (media_row_of w.id db))
      (text_row_of w.id TextPurpose.caption db)
delivery_content _ w db = err conflict

unfoldable pub load_delivery_content : WhisperRow → Tx DeliveryContent
unfolding delivery_content
load_delivery_content w db = (delivery_content w.payload_kind w db, db)
