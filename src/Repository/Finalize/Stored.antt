-- ===== src/Repository/Finalize/Stored.antt =====
-- The inserts of internal/repository/finalize.go leave the drafts as they are.
use secretmediabot.Base.{◌≡◌, refl, ◌∙◌, Option, none, some, List, arith, Time}
use secretmediabot.Repository.Rows.{
  DraftRow, WhisperRow, MediaBlobRow, EncryptedTextPayloadRow, EncryptedCallbackTokenRow, Db,
}
use secretmediabot.Repository.Tx.{Keeps, bind-Keeps, ◌>>◌}
use secretmediabot.Repository.Finalize.{
  insert_whisper, insert_callback, insert_text, insert_blob, put_text, put_media, put_caption,
  put_token, store_content, store_whisper,
}
use secretmediabot.Repository.Finalize.Checks.{EncryptedBlobInput, FinalizeDraftParams, time_of}
use secretmediabot.Repository.Finalize.Rows.{whisper_row_from_finalize, media_row}

module _ (ds : List DraftRow) (ws : List WhisperRow) where
  abbrev Untouched : Db → Type 0
  Untouched db = (db.drafts ≡ ds) × (db.whispers ≡ ws)

  insert_callback-Untouched : (t : EncryptedCallbackTokenRow) → Keeps Untouched (insert_callback t)
  unfolding insert_callback
  insert_callback-Untouched t db h = ground (arith, h)

  insert_text-Untouched : (t : EncryptedTextPayloadRow) → Keeps Untouched (insert_text t)
  unfolding insert_text
  insert_text-Untouched t db h = ground (arith, h)

  insert_blob-Untouched : (b : MediaBlobRow) → Keeps Untouched (insert_blob b)
  unfolding insert_blob
  insert_blob-Untouched b db h = ground (arith, h)

  put_text-Untouched :
      (p : FinalizeDraftParams) (now : Time) (o : Option EncryptedBlobInput)
      → Keeps Untouched (put_text p now o)
  unfolding put_text
  put_text-Untouched p now none db h = h
  put_text-Untouched p now (some i) db h = insert_text-Untouched _ db h

  put_media-Untouched :
      (p : FinalizeDraftParams) (now : Time) (o : Option EncryptedBlobInput)
      → Keeps Untouched (put_media p now o)
  unfolding put_media
  put_media-Untouched p now none db h = h
  put_media-Untouched p now (some i) db h =
      insert_blob-Untouched (media_row p.whisper.id i now (time_of p.whisper.content_retain_until))
        db h

  put_caption-Untouched :
      (p : FinalizeDraftParams) (now : Time) (o : Option EncryptedBlobInput)
      → Keeps Untouched (put_caption p now o)
  unfolding put_caption
  put_caption-Untouched p now none db h = h
  put_caption-Untouched p now (some i) db h = insert_text-Untouched _ db h

  put_token-Untouched :
      (p : FinalizeDraftParams) (now : Time) (o : Option EncryptedBlobInput)
      → Keeps Untouched (put_token p now o)
  unfolding put_token
  put_token-Untouched p now none db h = h
  put_token-Untouched p now (some i) db h = insert_callback-Untouched _ db h

  store_content-Untouched :
      (p : FinalizeDraftParams) (now : Time) → Keeps Untouched (store_content p now)
  unfolding store_content
  store_content-Untouched p now =
      bind-Keeps Untouched (put_text p now p.text)
        (λ _. put_media p now p.media >> put_caption p now p.caption)
        (put_text-Untouched p now p.text)
        (λ _.
          bind-Keeps Untouched (put_media p now p.media) (λ _. put_caption p now p.caption)
            (put_media-Untouched p now p.media) (λ _. put_caption-Untouched p now p.caption))

  pub store_payloads-Untouched :
      (p : FinalizeDraftParams) (now : Time)
      → Keeps Untouched (put_token p now p.callback_token >> store_content p now)
  store_payloads-Untouched p now =
      bind-Keeps Untouched (put_token p now p.callback_token) (λ _. store_content p now)
        (put_token-Untouched p now p.callback_token) (λ _. store_content-Untouched p now)

insert_whisper_drafts : (w : WhisperRow) (db : Db) → (insert_whisper w db).1.drafts ≡ db.drafts
unfolding insert_whisper
insert_whisper_drafts w db = ground arith

-- Storing a whisper leaves the drafts as they are.
pub store_whisper_drafts :
    (p : FinalizeDraftParams) (now : Time) (db : Db) → (store_whisper p now db).1.drafts ≡ db.drafts
unfolding store_whisper
store_whisper_drafts p now db =
    bind-Keeps (λ d. d.drafts ≡ db.drafts) (insert_whisper (whisper_row_from_finalize p now))
      (λ _. put_token p now p.callback_token >> store_content p now)
      (λ d h. insert_whisper_drafts (whisper_row_from_finalize p now) d ∙ h)
      (λ _ d h. (store_payloads-Untouched db.drafts d.whispers p now d (h, refl)).0) db refl
