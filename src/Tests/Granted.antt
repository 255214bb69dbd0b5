-- ===== src/Tests/Granted.antt =====
-- A reservation on the sample database.
use secretmediabot.Base.{◌≡◌, ◌<◌, refl, some, none, list_beq, count, pos}
use secretmediabot.Base.Table.{find, find_where, matches, modify}
use secretmediabot.Domain.Status.{published}
use secretmediabot.Domain.Content.{PayloadKind, ContentReference}
use secretmediabot.Repository.Errors.{ok}
use secretmediabot.Repository.Rows.{WhisperRow}
use secretmediabot.Repository.Mapping.{
  text_row_of, media_row_of, load_whisper_projection, to_domain, domain_of, text_to_stored,
}
use secretmediabot.Repository.Statements.{insert_event, has_callback}
use secretmediabot.Repository.Opening.Params.{OpenReservation, DeliveryContent}
use secretmediabot.Repository.Opening.Audit.{opening_row}
use secretmediabot.Repository.Opening.Content.{load_delivery_content}
use secretmediabot.Repository.Opening.Reserve.{reserve_open, by_token, reserved_event}
use secretmediabot.Repository.Opening.Granted.{CanReserve, reserve_open-granted}
use secretmediabot.Tests.Samples.{
  sample_env, sample_row, sample_db, sample_reserve, sample_text, hash,
}

abbrev sample_content : ContentReference
sample_content = record {
  kind = PayloadKind.text;
  text_blob_id = some 5;
  media = none;
  caption_blob_id = none;
}

abbrev sample_delivery : DeliveryContent
sample_delivery = record {
  kind = PayloadKind.text;
  text = some (text_to_stored sample_text);
  media = none;
  caption = none;
}

abbrev sample_reservation : OpenReservation
sample_reservation = record {
  whisper = domain_of (opening_row sample_reserve 100 sample_row) hash sample_content (some 2000);
  event_id = 1;
  content = sample_delivery;
}

reserves : (reserve_open sample_env sample_reserve sample_db).0 ≡ ok sample_reservation
unfolding reserve_open reserved_event find find_where list_beq text_row_of media_row_of count
    insert_event load_whisper_projection matches has_callback modify to_domain load_delivery_content
reserves = refl

reserve_open-granted_example :
    (w : WhisperRow) × (by_token sample_reserve sample_db ≡ some w)
    × (w.recipient_id ≡ pos 20)
    × (100 < w.expires_at)
    × (w.publish_state ≡ published)
    × CanReserve w.status w 100 sample_db
reserve_open-granted_example =
    reserve_open-granted sample_env sample_reserve sample_db sample_reservation reserves
