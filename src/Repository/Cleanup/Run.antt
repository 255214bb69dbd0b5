-- ===== src/Repository/Cleanup/Run.antt =====
-- internal/repository/cleanup.go: the statements, and the transaction that runs them.
use secretmediabot.Base.{
  ℕ, ℤ, zero, suc, pos, negsuc, ◌+◌, ◌-◌, Bool, ◌&&◌, ◌||◌, not, none, some, List, map, length,
  Uuid, Time, ◌==◌, nat_eq, int_eq, if◌then◌else◌, ltb, is_zero_time, before, is_none,
}
use secretmediabot.Base.Table.{find_where}
use secretmediabot.Base.Select.{filter, select, has_key, update_in, delete_in}
use secretmediabot.Domain.Status.{DraftState, completed, cancelled, draft_eq}
use secretmediabot.Repository.Errors.{invalid_input}
use secretmediabot.Repository.Rows.{
  DraftRow, WhisperRow, MediaBlobRow, EncryptedTextPayloadRow, EncryptedCallbackTokenRow,
  OpenEventRow, EphemeralDeleteJobRow, ProcessedUpdateRow, Db,
}
use secretmediabot.Repository.Tx.{Tx, pure, raise, now_or}
use secretmediabot.Repository.Mapping.{Env, whisper_key}
use secretmediabot.Repository.Cleanup.{
  Locks, CleanupParams, CleanupResult, is_old, sort_time, draft_key, update_key, job_key,
  stale_drafts, lapsed_ingests, stale_whispers, lapsed_openings, lapsed_publications,
  forgotten_whispers, stale_draft, released_draft, stale_whisper, unlocked_whisper, retried_whisper,
}

abbrev pub update_drafts : List DraftRow → (DraftRow → DraftRow) → Db → Db
update_drafts chosen f db = record db { drafts = update_in draft_key chosen f db.drafts }

abbrev pub update_whispers : List WhisperRow → (WhisperRow → WhisperRow) → Db → Db
update_whispers chosen f db = record db { whispers = update_in whisper_key chosen f db.whispers }

-- Terminal drafts that no whisper refers to.
unfoldable pub doomed_drafts : Locks → Time → ℕ → Db → List DraftRow
doomed_drafts locks bound n db =
    select
      (λ (d : DraftRow).
        (d.state == completed || d.state == cancelled || d.state == DraftState.expired)
        && ltb d.updated_at bound
        && is_none (find_where (λ (w : WhisperRow). w.draft_id == d.id) db.whispers)
        && not (locks.draft d.id))
      (λ (d : DraftRow). d.updated_at) draft_key n db.drafts

-- A 64-bit integer by its place in the order, which `ORDER BY` compares.
abbrev pub int64_rank : ℤ → ℕ
int64_rank (pos n) = 9_223_372_036_854_775_808 + n
int64_rank (negsuc n) = 9_223_372_036_854_775_807 - n

unfoldable pub doomed_updates : Locks → Time → ℕ → Db → List ProcessedUpdateRow
doomed_updates locks bound n db =
    select
      (λ (u : ProcessedUpdateRow).
        ltb u.updated_at bound && not (locks.update u.telegram_update_id))
      (λ (u : ProcessedUpdateRow). u.updated_at)
      (λ (u : ProcessedUpdateRow). int64_rank u.telegram_update_id) n db.updates

unfoldable pub doomed_jobs : Locks → Time → ℕ → Db → List EphemeralDeleteJobRow
doomed_jobs locks bound n db =
    select (λ (j : EphemeralDeleteJobRow). is_old j.deleted_at bound && not (locks.job j.id))
      (λ (j : EphemeralDeleteJobRow). sort_time j.deleted_at) job_key n db.jobs

abbrev is_kept : List WhisperRow → Uuid → Bool
is_kept chosen id = not (has_key whisper_key id chosen)

-- `ON DELETE SET NULL` of a deletion job.
abbrev drop_whisper : List WhisperRow → EphemeralDeleteJobRow → EphemeralDeleteJobRow
drop_whisper chosen j = record j {
  whisper_id = elim j.whisper_id [
    | none ↦ none
    | some id ↦ if is_kept chosen id then some id else none
  ];
}

-- `DELETE FROM whispers`, with the `ON DELETE` of the tables that refer to it.
unfoldable pub delete_whispers : List WhisperRow → Db → Db
delete_whispers chosen db = record db {
  whispers = delete_in whisper_key chosen db.whispers;
  blobs = filter (λ (b : MediaBlobRow). is_kept chosen b.whisper_id) db.blobs;
  texts = filter (λ (t : EncryptedTextPayloadRow). is_kept chosen t.whisper_id) db.texts;
  callbacks = filter (λ (c : EncryptedCallbackTokenRow). is_kept chosen c.whisper_id) db.callbacks;
  events = filter (λ (e : OpenEventRow). is_kept chosen e.whisper_id) db.events;
  jobs = map (drop_whisper chosen) db.jobs;
}

-- The statements in their order, each on the tables that the one before it leaves.
unfoldable pub expire_drafts : Locks → Time → ℕ → Db → Db
expire_drafts locks now n db = update_drafts (stale_drafts locks now n db) (stale_draft now) db

unfoldable pub release_ingests : Locks → Time → ℕ → Db → Db
release_ingests locks now n db =
    update_drafts (lapsed_ingests locks now n db) (released_draft now) db

unfoldable pub expire_whispers : Locks → Time → ℕ → Db → Db
expire_whispers locks now n db =
    update_whispers (stale_whispers locks now n db) (stale_whisper now) db

unfoldable pub release_openings : Locks → Time → ℕ → Db → Db
release_openings locks now n db =
    update_whispers (lapsed_openings locks now n db) (unlocked_whisper now) db

unfoldable pub release_publications : Locks → Time → ℕ → Db → Db
release_publications locks now n db =
    update_whispers (lapsed_publications locks now n db) (retried_whisper now) db

unfoldable pub delete_drafts : Locks → Time → ℕ → Db → Db
delete_drafts locks bound n db = record db {
  drafts = delete_in draft_key (doomed_drafts locks bound n db) db.drafts;
}

unfoldable pub forget_whispers : Locks → Time → ℕ → Db → Db
unfolding delete_whispers
forget_whispers locks now n db = delete_whispers (forgotten_whispers locks now n db) db

unfoldable pub delete_updates : Locks → Time → ℕ → Db → Db
delete_updates locks bound n db = record db {
  updates = delete_in update_key (doomed_updates locks bound n db) db.updates;
}

unfoldable pub delete_jobs : Locks → Time → ℕ → Db → Db
delete_jobs locks bound n db = record db {
  jobs = delete_in job_key (doomed_jobs locks bound n db) db.jobs;
}

-- `7 * 24 * time.Hour`
abbrev week : ℕ
week = 604_800_000_000_000

abbrev pub batch_of : ℤ → ℕ
batch_of (pos zero) = 500
batch_of (pos (suc n)) = suc n
batch_of (negsuc n) = 500

-- The state machine sweeps of the transaction.
unfoldable pub sweep : Locks → Time → ℕ → Db → Db
unfolding expire_drafts release_ingests expire_whispers release_openings release_publications
sweep locks now n db = release_publications locks now n (
    release_openings locks now n
      (expire_whispers locks now n (release_ingests locks now n (expire_drafts locks now n db))))

-- The deletions of the transaction.
unfoldable pub purge : Locks → Time → Time → ℕ → Db → Db
unfolding delete_drafts forget_whispers delete_updates delete_jobs
purge locks now bound n db =
    delete_jobs locks bound n
      (delete_updates locks bound n (forget_whispers locks now n (delete_drafts locks bound n db)))

abbrev pub processed_before : CleanupParams → Time → Time
processed_before p now =
    if is_zero_time p.processed_updates_before then now - week else p.processed_updates_before

-- What the statements report, each on the tables that the one before it leaves.
cleanup_result : Locks → Time → Time → ℕ → Db → CleanupResult
unfolding expire_drafts release_ingests expire_whispers release_openings sweep delete_drafts
    forget_whispers delete_updates
cleanup_result locks now bound n db =
    let drafts_expired = expire_drafts locks now n db in
    let ingests_released = release_ingests locks now n drafts_expired in
    let whispers_expired = expire_whispers locks now n ingests_released in
    let openings_released = release_openings locks now n whispers_expired in
    let swept = sweep locks now n db in
    let drafts_deleted = delete_drafts locks bound n swept in
    let whispers_deleted = forget_whispers locks now n drafts_deleted in
    let updates_deleted = delete_updates locks bound n whispers_deleted in
    record {
      expired_draft_sender_ids = map (λ (d : DraftRow). d.sender_id) (stale_drafts locks now n db);
      expired_drafts = length (stale_drafts locks now n db);
      released_draft_ingests = length (lapsed_ingests locks now n drafts_expired);
      expired_whispers = length (stale_whispers locks now n ingests_released);
      released_open_leases = length (lapsed_openings locks now n whispers_expired);
      released_publish_leases = length (lapsed_publications locks now n openings_released);
      deleted_drafts = length (doomed_drafts locks bound n swept);
      deleted_whispers = length (forgotten_whispers locks now n drafts_deleted);
      deleted_processed_updates = length (doomed_updates locks bound n whispers_deleted);
      deleted_ephemeral_jobs = length (doomed_jobs locks bound n updates_deleted);
    }

-- `Store.RunCleanup`
unfoldable pub run_cleanup : Env → Locks → CleanupParams → Tx CleanupResult
unfolding sweep purge cleanup_result
run_cleanup env locks p db =
    let now = now_or env.clock p.now in
    let bound = processed_before p now in
    let n = batch_of p.batch_size in
    if ltb 5000 n || not (before bound now)
    then raise invalid_input db
    else pure (cleanup_result locks now bound n db) (purge locks now bound n (sweep locks now n db))
