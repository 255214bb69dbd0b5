-- ===== src/Repository/Finalize.antt =====
-- internal/repository/finalize.go: `FinalizeDraft`, which turns a draft into a whisper.
pub mod Checks
pub mod Rows
pub mod Stored
pub mod Success
pub mod Moves
pub mod Path
use secretmediabot.Base.{
  ℕ, ℤ, pos, negsuc, Bool, true, false, ◌&&◌, ◌||◌, not, Option, none, some, List, [], ◌∷◌, ◌++◌,
  Uuid, Time, ◌==◌, nat_eq, int_eq, list_eq, if◌then◌else◌, after, is_some, ltb,
}
use secretmediabot.Base.Table.{find_where}
use secretmediabot.Domain.Status.{ingesting_media, completed, draft_eq}
use secretmediabot.Domain.Whisper.{Whisper}
use secretmediabot.Repository.Errors.{
  Result, ok, err, invalid_input, unauthorized, expired, lease_lost, conflict, database,
}
use secretmediabot.Repository.Rows.{
  DraftRow, WhisperRow, MediaBlobRow, EncryptedTextPayloadRow, EncryptedCallbackTokenRow,
  TextPurpose, Db,
}
use secretmediabot.Repository.Tx.{Tx, pure, raise, require, take, transaction, now_or, ◌>>=◌, ◌>>◌}
use secretmediabot.Repository.Mapping.{Env, is_purpose}
use secretmediabot.Repository.Drafts.{find_draft, update_draft}
use secretmediabot.Repository.Finalize.Checks.{
  EncryptedBlobInput, FinalizeDraftParams, is_bad_finalization, time_of,
}
use secretmediabot.Repository.Finalize.Rows.{
  whisper_row_from_finalize, media_row, text_payload_row, callback_token_row,
}

-- The inserts, with the unique columns of their tables.
unfoldable pub insert_whisper : WhisperRow → Tx (Unit {0})
insert_whisper w db =
    if is_some (
      find_where
        (λ (x : WhisperRow).
          x.id == w.id || x.draft_id == w.draft_id || x.open_token_hash == w.open_token_hash)
        db.whispers)
    then (err conflict, db)
    else (ok tt, record db { whispers = db.whispers ++ w ∷ [] })

unfoldable pub insert_callback : EncryptedCallbackTokenRow → Tx (Unit {0})
insert_callback t db =
    if is_some (
      find_where (λ (x : EncryptedCallbackTokenRow). x.id == t.id || x.whisper_id == t.whisper_id)
        db.callbacks)
    then (err conflict, db)
    else (ok tt, record db { callbacks = db.callbacks ++ t ∷ [] })

unfoldable pub insert_text : EncryptedTextPayloadRow → Tx (Unit {0})
insert_text t db =
    if is_some (
      find_where
        (λ (x : EncryptedTextPayloadRow).
          x.id == t.id || (x.whisper_id == t.whisper_id && is_purpose x.purpose t.purpose))
        db.texts)
    then (err conflict, db)
    else (ok tt, record db { texts = db.texts ++ t ∷ [] })

-- `CHECK (plaintext_size_bytes <= 20971520)`
abbrev pub is_too_large : ℤ → Bool
is_too_large (pos n) = ltb 20_971_520 n
is_too_large (negsuc n) = false

unfoldable pub insert_blob : MediaBlobRow → Tx (Unit {0})
insert_blob b db =
    if is_too_large b.plaintext_size_bytes
    then (err database, db)
    else if is_some
        (find_where (λ (x : MediaBlobRow). x.id == b.id || x.whisper_id == b.whisper_id) db.blobs)
    then (err conflict, db)
    else (ok tt, record db { blobs = db.blobs ++ b ∷ [] })

abbrev pub same_thread : Option ℤ → Option ℤ → Bool
same_thread none none = true
same_thread (some a) (some b) = a == b
same_thread _ _ = false

-- The whisper is one of its draft.
abbrev pub fits_draft : Whisper → DraftRow → Bool
fits_draft w d =
    w.draft_id == d.id
    && w.sender_id == d.sender_id
    && w.recipient_id == d.recipient_id
    && w.source_chat_id == d.source_chat_id
    && same_thread w.source_thread_id d.source_thread_id

abbrev pub holds_draft : Time → DraftRow → Bool
holds_draft expected d =
    d.state == ingesting_media
    && elim d.ingest_lease_until [ none ↦ false | some lease ↦ lease == expected ]

-- `!draft.ExpiresAt.After(now) || !draft.IngestLeaseUntil.After(now)`, negated.
abbrev pub is_in_time : Time → DraftRow → Bool
is_in_time now d =
    after d.expires_at now
    && elim d.ingest_lease_until [ none ↦ false | some lease ↦ after lease now ]

abbrev pub completed_row : Time → DraftRow → DraftRow
completed_row now d = record d {
  state = completed;
  ingest_lease_until = none;
  completed_at = some now;
  updated_at = now;
}

-- The rows of the payloads that are given.
unfoldable pub put_text : FinalizeDraftParams → Time → Option EncryptedBlobInput → Tx (Unit {0})
unfolding insert_text
put_text p now none = pure tt
put_text p now (some i) =
    insert_text (
      text_payload_row p.whisper.id TextPurpose.text i now (time_of p.whisper.content_retain_until))

unfoldable pub put_media : FinalizeDraftParams → Time → Option EncryptedBlobInput → Tx (Unit {0})
unfolding insert_blob
put_media p now none = pure tt
put_media p now (some i) =
    insert_blob (media_row p.whisper.id i now (time_of p.whisper.content_retain_until))

unfoldable pub put_caption : FinalizeDraftParams → Time → Option EncryptedBlobInput → Tx (Unit {0})
unfolding insert_text
put_caption p now none = pure tt
put_caption p now (some i) = insert_text (
    text_payload_row p.whisper.id TextPurpose.caption i now
      (time_of p.whisper.content_retain_until))

unfoldable pub put_token : FinalizeDraftParams → Time → Option EncryptedBlobInput → Tx (Unit {0})
unfolding insert_callback
put_token p now none = pure tt
put_token p now (some i) = insert_callback (callback_token_row p.whisper.id i now)

unfoldable pub store_content : FinalizeDraftParams → Time → Tx (Unit {0})
unfolding put_text put_media put_caption
store_content p now = do put_text p now p.text; put_media p now p.media; put_caption p now p.caption

unfoldable pub store_whisper : FinalizeDraftParams → Time → Tx (Unit {0})
unfolding insert_whisper put_token store_content
store_whisper p now = do
  insert_whisper (whisper_row_from_finalize p now)
  put_token p now p.callback_token
  store_content p now

unfoldable pub complete_draft : FinalizeDraftParams → Time → Tx (Unit {0})
complete_draft p now = do
  hit ← update_draft p.draft_id (holds_draft p.expected_lease_until) (completed_row now)
  require hit lease_lost

unfoldable pub finalize_found : FinalizeDraftParams → Time → DraftRow → Tx (Unit {0})
unfolding store_whisper complete_draft
finalize_found p now d = do
  require (d.sender_id == p.sender_id) unauthorized
  require (holds_draft p.expected_lease_until d) lease_lost
  require (is_in_time now d) expired
  require (fits_draft p.whisper d) invalid_input
  store_whisper p now
  complete_draft p now

unfoldable pub finalize_body : FinalizeDraftParams → Time → Tx (Unit {0})
unfolding finalize_found
finalize_body p now = do d ← take (find_draft p.draft_id); finalize_found p now d

-- `Store.FinalizeDraft`
unfoldable pub finalize_draft : Env → FinalizeDraftParams → Tx Whisper
unfolding finalize_body is_bad_finalization
finalize_draft env p =
    let now = now_or env.clock p.now in
    if is_bad_finalization p now
    then raise invalid_input
    else (do transaction (finalize_body p now); pure p.whisper)
