-- ===== src/Repository/Drafts.antt =====
-- internal/repository/drafts.go: drafts, their quota and their ingest lease.
pub mod Lease
pub mod Quota
use secretmediabot.Base.{
  ℕ, ℤ, pos, ◌-◌, Bool, true, false, ◌&&◌, ◌||◌, not, Option, none, some, List, [], ◌∷◌, ◌++◌, Uuid,
  Time, Bytes, ◌==◌, nat_eq, int_eq, list_eq, if◌then◌else◌, after, before, is_zero_time,
  is_positive, is_zero, nil_uuid, leb, ltb, count, is_some, length, sha256_size,
}
use secretmediabot.Base.Table.{find, find_where, modify, matches}
use secretmediabot.Base.Select.{latest}
use secretmediabot.Domain.Status.{DraftState, awaiting_media, ingesting_media, cancelled, draft_eq}
use secretmediabot.Domain.Draft.{Draft, validate_draft}
use secretmediabot.Repository.Errors.{
  Result, ok, err, invalid_input, not_active, not_found, lease_lost, conflict,
  too_many_active_drafts, whisper_rate_limit,
}
use secretmediabot.Repository.Rows.{DraftRow, WhisperRow, Db}
use secretmediabot.Repository.Tx.{Tx, pure, raise, require, take, transaction, now_or, ◌>>=◌, ◌>>◌}
use secretmediabot.Repository.Mapping.{Env}
use secretmediabot.Repository.Statements.{lift}
use secretmediabot.Repository.Cleanup.{is_past, draft_key}

pub record CreateDraftParams : Type 0 where
  pub draft : Draft
  pub compose_token_hash : Bytes
  pub source_command_message_id : Option ℤ
  pub now : Time
  pub max_active_drafts : ℤ
  pub recent_whispers_since : Time
  pub max_recent_whispers : ℤ

pub record ClaimDraftIngestParams : Type 0 where
  pub draft_id : Uuid
  pub sender_id : ℤ
  pub now : Time
  pub lease_until : Time

pub record ReleaseDraftIngestParams : Type 0 where
  pub draft_id : Uuid
  pub sender_id : ℤ
  pub expected_lease_until : Time
  pub now : Time

pub record CancelDraftParams : Type 0 where
  pub draft_id : Uuid
  pub sender_id : ℤ
  pub now : Time

-- `draftRow.toDomain`
abbrev pub draft_to_domain : DraftRow → Draft
draft_to_domain r = record {
  id = r.id;
  compose_token_hash = r.compose_token_hash;
  sender_id = r.sender_id;
  recipient_id = r.recipient_id;
  source_chat_id = r.source_chat_id;
  source_thread_id = r.source_thread_id;
  source_reply_message_id = r.source_reply_message_id;
  source_command_message_id = r.source_command_message_id;
  state = r.state;
  created_at = r.created_at;
  updated_at = r.updated_at;
  expires_at = r.expires_at;
  ingest_started_at = r.ingest_started_at;
  ingest_lease_until = r.ingest_lease_until;
  completed_at = r.completed_at;
  cancelled_at = r.cancelled_at;
}

abbrev pub find_draft : Uuid → Db → Option DraftRow
find_draft id db = find draft_key id db.drafts

-- `UPDATE whisper_drafts ... WHERE id = ? AND p`, with whether it changed a row.
abbrev pub update_draft : Uuid → (DraftRow → Bool) → (DraftRow → DraftRow) → Tx Bool
update_draft id p f db = (
  ok (matches draft_key id p db.drafts),
  record db { drafts = modify draft_key id p f db.drafts },
)

-- `state IN ('awaiting_media', 'ingesting_media')`
abbrev pub is_unfinished : DraftRow → Bool
is_unfinished d = d.state == awaiting_media || d.state == ingesting_media

abbrev pub is_active_of : ℤ → Time → DraftRow → Bool
is_active_of sender now d = d.sender_id == sender && is_unfinished d && ltb now d.expires_at

abbrev pub is_recent_of : ℤ → Time → WhisperRow → Bool
is_recent_of sender since w = w.sender_id == sender && leb since w.created_at

-- The primary key, `UNIQUE` of the hash, and the unique index on the sender of unfinished drafts.
unfoldable pub clashes : DraftRow → DraftRow → Bool
clashes d x =
    x.id == d.id
    || x.compose_token_hash == d.compose_token_hash
    || (is_unfinished x && is_unfinished d && x.sender_id == d.sender_id)

-- `INSERT INTO whisper_drafts`, where `known` says that the rows of users, chats and members that
-- the new row refers to are there.
unfoldable pub insert_draft : (DraftRow → Bool) → DraftRow → Tx (Unit {0})
unfolding clashes
insert_draft known d db =
    if not (known d) || is_some (find_where (clashes d) db.drafts)
    then (err conflict, db)
    else (ok tt, record db { drafts = db.drafts ++ d ∷ [] })

-- Nanoseconds of an hour.
abbrev pub hour : ℕ
hour = 3_600_000_000_000

-- The parameters of `CreateDraft` with their defaults.
abbrev pub compose_hash : CreateDraftParams → Bytes
compose_hash p =
    if p.compose_token_hash == [] then p.draft.compose_token_hash else p.compose_token_hash

abbrev pub max_active : CreateDraftParams → ℤ
max_active p = if is_zero p.max_active_drafts then pos 1 else p.max_active_drafts

abbrev pub max_recent : CreateDraftParams → ℤ
max_recent p = if is_zero p.max_recent_whispers then pos 30 else p.max_recent_whispers

abbrev pub recent_since : CreateDraftParams → Time → Time
recent_since p now =
    if is_zero_time p.recent_whispers_since then now - hour else p.recent_whispers_since

-- The draft that is validated, with the hash that the parameters agree on.
abbrev pub hashed_draft : CreateDraftParams → Draft
hashed_draft p = record p.draft { compose_token_hash = compose_hash p }

-- The early returns of `CreateDraft`.
unfoldable pub is_bad_creation : CreateDraftParams → Time → Bool
is_bad_creation p now =
    (not (p.draft.compose_token_hash == []) && not (compose_hash p == p.draft.compose_token_hash))
    || is_some (validate_draft (hashed_draft p))
    || not (p.draft.state == awaiting_media)
    || not (length (compose_hash p) == sha256_size)
    || not (max_active p == pos 1)
    || not (is_positive (max_recent p))
    || not (before (recent_since p now) now)

abbrev pub created_row : CreateDraftParams → DraftRow
created_row p = record {
  id = p.draft.id;
  compose_token_hash = compose_hash p;
  sender_id = p.draft.sender_id;
  recipient_id = p.draft.recipient_id;
  source_chat_id = p.draft.source_chat_id;
  source_thread_id = p.draft.source_thread_id;
  source_reply_message_id = p.draft.source_reply_message_id;
  source_command_message_id = elim p.source_command_message_id [
    | none ↦ p.draft.source_command_message_id
    | some m ↦ some m
  ];
  state = p.draft.state;
  created_at = p.draft.created_at;
  updated_at = p.draft.created_at;
  expires_at = p.draft.expires_at;
  ingest_started_at = none;
  ingest_lease_until = none;
  completed_at = none;
  cancelled_at = none;
}

-- `n >= limit` of a count and an `int`.
abbrev pub reaches : ℕ → ℤ → Bool
reaches n (pos limit) = leb limit n
reaches n _ = true

unfoldable pub count_active : ℤ → Time → Tx ℕ
unfolding count
count_active sender now db = (ok (count (is_active_of sender now) db.drafts), db)

unfoldable pub count_recent : ℤ → Time → Tx ℕ
unfolding count
count_recent sender since db = (ok (count (is_recent_of sender since) db.whispers), db)

unfoldable pub create_draft_body : (DraftRow → Bool) → CreateDraftParams → Time → Tx (Unit {0})
unfolding insert_draft count_active count_recent
create_draft_body known p now = do
  active ← count_active p.draft.sender_id now
  require (not (reaches active (max_active p))) too_many_active_drafts
  recent ← count_recent p.draft.sender_id (recent_since p now)
  require (not (reaches recent (max_recent p))) whisper_rate_limit
  insert_draft known (created_row p)

-- `Store.CreateDraft`
unfoldable pub create_draft : (DraftRow → Bool) → Env → CreateDraftParams → Tx Draft
unfolding create_draft_body is_bad_creation
create_draft known env p =
    let now = now_or env.clock p.now in
    if is_bad_creation p now then raise invalid_input else (do
      _ ← transaction (create_draft_body known p now)
      pure (draft_to_domain (created_row p)))

-- `Store.CountActiveDrafts`
unfoldable pub count_active_drafts : Env → ℤ → Time → Tx ℕ
unfolding count_active
count_active_drafts env sender value =
    if not (is_positive sender)
    then raise invalid_input
    else count_active sender (now_or env.clock value)

-- `Store.CountRecentWhispersBySender`
unfoldable pub count_recent_whispers_by_sender : ℤ → Time → Tx ℕ
unfolding count_recent
count_recent_whispers_by_sender sender since =
    if not (is_positive sender) || is_zero_time since
    then raise invalid_input
    else count_recent sender since

-- `Store.FindDraftByComposeTokenHash`
unfoldable pub find_draft_by_compose_token_hash : Bytes → Tx Draft
find_draft_by_compose_token_hash hash =
    if not (length hash == sha256_size) then raise invalid_input else (do
      row ← take (λ db. find_where (λ (d : DraftRow). d.compose_token_hash == hash) db.drafts)
      pure (draft_to_domain row))

-- The rows whose ingestion a sender may claim.
abbrev pub is_ingestable : ℤ → Time → DraftRow → Bool
is_ingestable sender now d =
    d.sender_id == sender
    && ltb now d.expires_at
    && (d.state == awaiting_media
        || (d.state == ingesting_media && is_past d.ingest_lease_until now))

abbrev pub ingesting_row : Time → Time → DraftRow → DraftRow
ingesting_row now lease d = record d {
  state = ingesting_media;
  ingest_started_at = some now;
  ingest_lease_until = some lease;
  updated_at = now;
}

-- `RETURNING` of one row.
unfoldable pub returned_draft : Uuid → Tx Draft
returned_draft id = do row ← take (find_draft id); pure (draft_to_domain row)

unfoldable pub claim_ingest_statement : ClaimDraftIngestParams → Time → Tx Draft
unfolding returned_draft
claim_ingest_statement p now = do
  hit ← update_draft p.draft_id (is_ingestable p.sender_id now) (ingesting_row now p.lease_until)
  require hit conflict
  returned_draft p.draft_id

-- `Store.ClaimDraftIngest`
unfoldable pub claim_draft_ingest : Env → ClaimDraftIngestParams → Tx Draft
unfolding claim_ingest_statement
claim_draft_ingest env p =
    let now = now_or env.clock p.now in
    if p.draft_id == nil_uuid || not (is_positive p.sender_id) || not (after p.lease_until now)
    then raise invalid_input
    else claim_ingest_statement p now

abbrev pub draft_created : DraftRow → ℕ
draft_created d = d.created_at

-- `FOR UPDATE SKIP LOCKED` of the latest row, and its update.
unfoldable pub candidate_draft : (Uuid → Bool) → (DraftRow → Bool) → Db → Option DraftRow
candidate_draft locked p db =
    latest (λ (d : DraftRow). p d && not (locked d.id)) draft_created draft_key db.drafts

abbrev pub any_draft : DraftRow → Bool
any_draft d = true

unfoldable pub move_candidate : (DraftRow → DraftRow) → Option DraftRow → Tx Draft
unfolding returned_draft
move_candidate f none = raise not_found
move_candidate f (some d) = do _ ← update_draft d.id any_draft f; returned_draft d.id

-- `Store.ClaimLatestDraftIngest`
unfoldable pub claim_latest_draft_ingest : Env → (Uuid → Bool) → ℤ → Time → Time → Tx Draft
unfolding move_candidate candidate_draft
claim_latest_draft_ingest env locked sender value lease =
    let now = now_or env.clock value in
    if not (is_positive sender) || not (after lease now) then raise invalid_input else λ db.
    move_candidate (ingesting_row now lease) (candidate_draft locked (is_ingestable sender now) db)
      db

abbrev pub holds_ingest : ℤ → Time → DraftRow → Bool
holds_ingest sender expected d =
    d.sender_id == sender
    && d.state == ingesting_media
    && elim d.ingest_lease_until [ none ↦ false | some lease ↦ lease == expected ]

abbrev pub awaiting_row : Time → DraftRow → DraftRow
awaiting_row now d = record d {
  state = awaiting_media;
  ingest_lease_until = none;
  updated_at = now;
}

-- `Store.ReleaseDraftIngest`
unfoldable pub release_draft_ingest : Env → ReleaseDraftIngestParams → Tx (Unit {0})
release_draft_ingest env p =
    if p.draft_id == nil_uuid
      || not (is_positive p.sender_id)
      || is_zero_time p.expected_lease_until
    then raise invalid_input
    else (do
      hit ←
          update_draft p.draft_id (holds_ingest p.sender_id p.expected_lease_until)
            (awaiting_row (now_or env.clock p.now))
      require hit lease_lost)

abbrev pub is_cancellable : ℤ → DraftRow → Bool
is_cancellable sender d = d.sender_id == sender && is_unfinished d

abbrev pub cancelled_row : Time → DraftRow → DraftRow
cancelled_row now d = record d {
  state = cancelled;
  ingest_lease_until = none;
  cancelled_at = some now;
  updated_at = now;
}

-- `Store.CancelDraft`
unfoldable pub cancel_draft : Env → CancelDraftParams → Tx (Unit {0})
cancel_draft env p =
    if p.draft_id == nil_uuid || not (is_positive p.sender_id) then raise invalid_input else (do
      hit ←
          update_draft p.draft_id (is_cancellable p.sender_id)
            (cancelled_row (now_or env.clock p.now))
      require hit not_active)

-- `Store.CancelLatestDraftForSender`
unfoldable pub cancel_latest_draft_for_sender : Env → (Uuid → Bool) → ℤ → Time → Tx Draft
unfolding move_candidate candidate_draft
cancel_latest_draft_for_sender env locked sender value =
    let now = now_or env.clock value in
    if not (is_positive sender) then raise invalid_input else λ db.
    move_candidate (cancelled_row now) (candidate_draft locked (is_active_of sender now) db) db
