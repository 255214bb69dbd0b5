-- ===== src/Repository/Cleanup.antt =====
-- internal/repository/cleanup.go: `RunCleanup` on the tables of the model, in the order of its
-- statements. The statements on guest requests and on observed identities act on other tables.
pub mod Run
pub mod Keeps
pub mod Recorded
use secretmediabot.Base.{
  ℕ, ℤ, zero, suc, pos, negsuc, ◌*◌, ◌-◌, ◌+◌, Bool, true, false, ◌&&◌, ◌||◌, not, Option, none,
  some, List, map, length, Uuid, Time, Text, codes, ◌==◌, nat_eq, int_eq, if◌then◌else◌, leb, ltb,
  is_zero_time, before, is_none, is_some,
}
use secretmediabot.Base.Table.{find_where}
use secretmediabot.Base.Select.{filter, select, has_key, update_in, delete_in}
use secretmediabot.Domain.Status.{
  WhisperStatus, active, opening, expired, status_eq, DraftState, awaiting_media, ingesting_media,
  draft_eq, publishing, retry_wait, publish_eq, PublishState,
}
use secretmediabot.Repository.Errors.{invalid_input}
use secretmediabot.Repository.Rows.{
  DraftRow, WhisperRow, MediaBlobRow, EncryptedTextPayloadRow, EncryptedCallbackTokenRow,
  OpenEventRow, EphemeralDeleteJobRow, ProcessedUpdateRow, Db,
}
use secretmediabot.Repository.Tx.{Tx, pure, raise, now_or}
use secretmediabot.Repository.Mapping.{Env, whisper_key}

-- The rows that other transactions hold, which `SKIP LOCKED` passes over.
pub record Locks : Type 0 where
  pub draft : Uuid → Bool
  pub whisper : Uuid → Bool
  pub update : ℤ → Bool
  pub job : ℕ → Bool

pub record CleanupParams : Type 0 where
  pub now : Time
  pub processed_updates_before : Time
  pub batch_size : ℤ

-- The counters of the statements on these tables.
pub record CleanupResult : Type 0 where
  pub expired_draft_sender_ids : List ℤ
  pub expired_drafts : ℕ
  pub released_draft_ingests : ℕ
  pub expired_whispers : ℕ
  pub released_open_leases : ℕ
  pub released_publish_leases : ℕ
  pub deleted_drafts : ℕ
  pub deleted_whispers : ℕ
  pub deleted_processed_updates : ℕ
  pub deleted_ephemeral_jobs : ℕ

-- `t <= now` of a column that may be NULL, and the value that it is sorted by.
abbrev pub is_past : Option Time → Time → Bool
is_past none now = false
is_past (some t) now = leb t now

abbrev pub is_old : Option Time → Time → Bool
is_old none bound = false
is_old (some t) bound = ltb t bound

abbrev pub sort_time : Option Time → ℕ
sort_time none = 0
sort_time (some t) = t

abbrev pub rank : ℤ → ℕ
rank (pos n) = n
rank (negsuc n) = 0

abbrev pub draft_key : DraftRow → Uuid
draft_key d = d.id

abbrev pub update_key : ProcessedUpdateRow → ℤ
update_key u = u.telegram_update_id

abbrev pub job_key : EphemeralDeleteJobRow → ℕ
job_key j = j.id

-- The selections of the statements.
unfoldable pub stale_drafts : Locks → Time → ℕ → Db → List DraftRow
stale_drafts locks now n db =
    select
      (λ (d : DraftRow).
        (d.state == awaiting_media || d.state == ingesting_media)
        && leb d.expires_at now
        && not (locks.draft d.id))
      (λ (d : DraftRow). d.expires_at) draft_key n db.drafts

unfoldable pub lapsed_ingests : Locks → Time → ℕ → Db → List DraftRow
lapsed_ingests locks now n db =
    select
      (λ (d : DraftRow).
        d.state == ingesting_media
        && is_past d.ingest_lease_until now
        && ltb now d.expires_at
        && not (locks.draft d.id))
      (λ (d : DraftRow). sort_time d.ingest_lease_until) draft_key n db.drafts

abbrev pub is_stale : Locks → Time → WhisperRow → Bool
is_stale locks now w =
    (w.status == active || w.status == opening) && leb w.expires_at now && not (locks.whisper w.id)

abbrev pub is_lapsed : Locks → Time → WhisperRow → Bool
is_lapsed locks now w =
    w.status == opening
    && is_past w.opening_lease_until now
    && ltb now w.expires_at
    && not (locks.whisper w.id)

abbrev pub is_unpublished : Locks → Time → WhisperRow → Bool
is_unpublished locks now w =
    w.publish_state == publishing
    && is_past w.publish_lease_until now
    && w.status == active
    && ltb now w.expires_at
    && not (locks.whisper w.id)

abbrev pub is_forgotten : Locks → Time → WhisperRow → Bool
is_forgotten locks now w = leb w.retention_delete_at now && not (locks.whisper w.id)

unfoldable pub stale_whispers : Locks → Time → ℕ → Db → List WhisperRow
stale_whispers locks now n db =
    select (is_stale locks now) (λ (w : WhisperRow). w.expires_at) whisper_key n db.whispers

unfoldable pub lapsed_openings : Locks → Time → ℕ → Db → List WhisperRow
lapsed_openings locks now n db =
    select (is_lapsed locks now) (λ (w : WhisperRow). sort_time w.opening_lease_until) whisper_key n
      db.whispers

unfoldable pub lapsed_publications : Locks → Time → ℕ → Db → List WhisperRow
lapsed_publications locks now n db =
    select (is_unpublished locks now) (λ (w : WhisperRow). sort_time w.publish_lease_until)
      whisper_key n db.whispers

unfoldable pub forgotten_whispers : Locks → Time → ℕ → Db → List WhisperRow
forgotten_whispers locks now n db =
    select (is_forgotten locks now) (λ (w : WhisperRow). w.retention_delete_at) whisper_key n
      db.whispers

-- The rows after the statements.
abbrev pub stale_draft : Time → DraftRow → DraftRow
stale_draft now d = record d {
  state = DraftState.expired;
  ingest_lease_until = none;
  updated_at = now;
}

abbrev pub released_draft : Time → DraftRow → DraftRow
released_draft now d = record d {
  state = awaiting_media;
  ingest_lease_until = none;
  updated_at = now;
}

abbrev pub stale_whisper : Time → WhisperRow → WhisperRow
stale_whisper now w =
    let is_publishing = w.publish_state == publishing in
    record w {
      status = expired;
      opening_callback_query_id = none;
      opening_reserved_at = none;
      opening_lease_until = none;
      publish_state = if is_publishing then PublishState.failed else w.publish_state;
      publish_lease_until = if is_publishing then none else w.publish_lease_until;
      last_publish_error = if is_publishing then some (codes "expired") else w.last_publish_error;
      updated_at = now;
    }

abbrev pub unlocked_whisper : Time → WhisperRow → WhisperRow
unlocked_whisper now w = record w {
  status = active;
  opening_callback_query_id = none;
  opening_reserved_at = none;
  opening_lease_until = none;
  updated_at = now;
}

abbrev pub retried_whisper : Time → WhisperRow → WhisperRow
retried_whisper now w = record w {
  publish_state = retry_wait;
  publish_lease_until = none;
  next_publish_attempt_at = now;
  last_publish_error = some (codes "publish_lease_expired");
  updated_at = now;
}
