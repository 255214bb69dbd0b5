-- ===== src/Repository/Statements.antt =====
-- The statements on the tables that several files of internal/repository issue.
use secretmediabot.Base.{
  ◌≡◌, ◌⊎◌, arith, ℕ, suc, ℤ, Bool, true, false, ◌&&◌, Option, some, List, [], ◌∷◌, ◌++◌, String,
  Uuid, Text, ◌==◌, int_eq, string_eq, list_eq, nat_eq, if◌then◌else◌, leb, length, take,
  trim_space, codes,
}
use secretmediabot.Base.Table.{modify, matches}
use secretmediabot.Repository.Errors.{Result, ok, err, conflict}
use secretmediabot.Repository.Rows.{WhisperRow, OpenEventRow, EphemeralDeleteJobRow, Db}
use secretmediabot.Repository.Tx.{Tx}
use secretmediabot.Repository.Mapping.{whisper_key}

abbrev pub event_key : OpenEventRow → ℕ
event_key e = e.id

-- `UPDATE whispers ... WHERE id = ? AND p`, with whether it changed a row.
abbrev pub update_whisper : Uuid → (WhisperRow → Bool) → (WhisperRow → WhisperRow) → Tx Bool
update_whisper id p f db = (
  ok (matches whisper_key id p db.whispers),
  record db { whispers = modify whisper_key id p f db.whispers },
)

abbrev pub update_event : ℕ → (OpenEventRow → Bool) → (OpenEventRow → OpenEventRow) → Tx Bool
update_event id p f db = (
  ok (matches event_key id p db.events),
  record db { events = modify event_key id p f db.events },
)

-- `callback_query_id TEXT UNIQUE`: a NULL is unlike any other.
abbrev same_callback : Option String → Option String → Bool
same_callback (some a) (some b) = a == b
same_callback _ _ = false

unfoldable pub has_callback : Option String → List OpenEventRow → Bool
has_callback c [] = false
has_callback c (e ∷ es) = if same_callback e.callback_query_id c then true else has_callback c es

-- The tables with a new open event, under the next serial number.
abbrev pub with_event : OpenEventRow → Db → Db
with_event e db = record db {
  events = db.events ++ record e { id = db.next_event_id } ∷ [];
  next_event_id = suc db.next_event_id;
}

-- `INSERT INTO whisper_open_events`, which returns the new serial number.
unfoldable pub insert_event : OpenEventRow → Tx ℕ
insert_event e db =
    if has_callback e.callback_query_id db.events
    then (err conflict, db)
    else (ok db.next_event_id, with_event e db)

pub insert_event-cases :
    (e : OpenEventRow) (db : Db)
    → (insert_event e db ≡ (err conflict, db))
      ⊎ (insert_event e db ≡ (ok db.next_event_id, with_event e db))
unfolding insert_event
insert_event-cases e db = ground arith

-- `UNIQUE (chat_id, recipient_id, ephemeral_message_id)`
unfoldable pub is_same_message : ℤ → ℤ → ℤ → EphemeralDeleteJobRow → Bool
is_same_message chat recipient message j =
    j.chat_id == chat && j.recipient_id == recipient && j.ephemeral_message_id == message

unfoldable pub has_message : EphemeralDeleteJobRow → List EphemeralDeleteJobRow → Bool
unfolding is_same_message
has_message j [] = false
has_message j (k ∷ ks) =
    if is_same_message j.chat_id j.recipient_id j.ephemeral_message_id k
    then true
    else has_message j ks

-- `INSERT INTO ephemeral_delete_jobs`
unfoldable pub insert_job : EphemeralDeleteJobRow → Tx (Unit {0})
unfolding has_message
insert_job j db = if has_message j db.jobs then (err conflict, db) else (
  ok tt,
  record db {
    jobs = db.jobs ++ record j { id = db.next_job_id } ∷ [];
    next_job_id = suc db.next_job_id;
  },
)

abbrev pub lift : {A : Type 0} → Result A → Tx A
lift r db = (r, db)

-- `safeErrorCode` of internal/repository/publish.go, on the runes of the code.
unfoldable pub safe_error_code : Text → Text
unfolding trim_space
safe_error_code value =
    let trimmed = trim_space value in
    if trimmed == []
    then codes "unspecified"
    else if leb (length trimmed) 128
    then trimmed
    else take 128 trimmed
