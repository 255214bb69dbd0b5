-- ===== src/Repository/Cleanup/Keeps.antt =====
-- `RunCleanup` and the recorded deliveries of a one-time whisper.
use secretmediabot.Base.{
  ℕ, ◌≤◌, ◌≡◌, refl, sym, ap, ◌∙◌, true, ◌||◌, not, some, List, Uuid, Time, nat_eq, int_eq, arith,
  Bool-cases, Option-cases, inl, inr, if◌then◌else◌, ltb, before,
}
use secretmediabot.Base.Select.{
  has_key, delete_in, find-update_in, Distinct-update_in, Distinct-filter, All-filter, count-filter,
  find-delete_in, select-passes,
}
use secretmediabot.Domain.Status.{active, opening, status_eq}
use secretmediabot.Domain.Events.{is_delivered}
use secretmediabot.Repository.Rows.{WhisperRow, OpenEventRow, Db}
use secretmediabot.Repository.Tx.{now_or}
use secretmediabot.Repository.Mapping.{Env, whisper_key}
use secretmediabot.Repository.Statements.{event_key}
use secretmediabot.Repository.Opening.Finish.{find_whisper}
use secretmediabot.Repository.Opening.Tally.{tally, of_whisper, HasKeys, IsCapped}
use secretmediabot.Repository.Opening.Once.{delivered_cap}
use secretmediabot.Repository.Cleanup.{
  Locks, CleanupParams, stale_whispers, lapsed_openings, forgotten_whispers, stale_whisper,
  unlocked_whisper, retried_whisper, is_stale, is_lapsed, sort_time,
}
use secretmediabot.Repository.Cleanup.Run.{
  update_whispers, delete_whispers, expire_drafts, release_ingests, expire_whispers,
  release_openings, release_publications, delete_drafts, forget_whispers, delete_updates,
  delete_jobs, sweep, purge, run_cleanup, batch_of, processed_before,
}

-- Keys are distinct, and a delivery of a one-time whisper is recorded only if it is opened.
unfoldable pub IsRecorded : Db → Type 0
IsRecorded db = HasKeys db × IsCapped is_delivered delivered_cap db

update_whispers-IsRecorded :
    (chosen : List WhisperRow) (f : WhisperRow → WhisperRow) (db : Db)
    → ((x : WhisperRow) → whisper_key (f x) ≡ whisper_key x)
    → ((x : WhisperRow) → (f x).one_time ≡ x.one_time)
    → ((id : Uuid) (x : WhisperRow)
        → find_whisper id db ≡ some x
        → has_key whisper_key id chosen ≡ true
        → delivered_cap x.status ≤ delivered_cap (f x).status)
    → IsRecorded db
    → IsRecorded (update_whispers chosen f db)
unfolding IsRecorded
update_whispers-IsRecorded chosen f db keys ones grows h = (
  record {
    whispers_distinct =
        Distinct-update_in whisper_key chosen f db.whispers keys h.0.whispers_distinct;
    events_distinct = h.0.events_distinct;
    events_below = h.0.events_below;
  },
  record {
    bound = λ j w found one.
        let image = sym (find-update_in whisper_key j chosen f db.whispers keys) ∙ found in
        elim (Option-cases (find_whisper j db)) [
          | inl missing ↦ cc (missing, image)
          | inr (x, here) ↦
              let made : (if has_key whisper_key j chosen then f x else x) ≡ w =
                ground (arith, image, here) in
              elim (Bool-cases (has_key whisper_key j chosen)) [
                | inl hit ↦
                    let same : f x ≡ w = rw hit at made in
                    omega (
                      arith,
                      h.1.bound j x here
                          (sym (ones x) ∙ (ap (λ (r : WhisperRow). r.one_time) same ∙ one)),
                      grows j x here hit,
                      ap (λ (r : WhisperRow). delivered_cap r.status) same,
                    )
                | inr miss ↦
                    let same : x ≡ w = rw miss at made in
                    omega (
                      arith,
                      h.1.bound j x here (ap (λ (r : WhisperRow). r.one_time) same ∙ one),
                      ap (λ (r : WhisperRow). delivered_cap r.status) same,
                    )
              ]
        ];
  },
)

delete_whispers-IsRecorded :
    (chosen : List WhisperRow) (db : Db) → IsRecorded db → IsRecorded (delete_whispers chosen db)
unfolding IsRecorded delete_whispers delete_in tally
delete_whispers-IsRecorded chosen db h = (
  record {
    whispers_distinct = Distinct-filter whisper_key _ db.whispers h.0.whispers_distinct;
    events_distinct = Distinct-filter event_key _ db.events h.0.events_distinct;
    events_below = All-filter _ _ db.events h.0.events_below;
  },
  record {
    bound = λ j w found one. omega (
      arith,
      count-filter (of_whisper is_delivered j)
          (λ (e : OpenEventRow). not (has_key whisper_key e.whisper_id chosen)) db.events,
      h.1.bound j w (find-delete_in whisper_key j chosen db.whispers w found) one,
    );
  },
)

expire_whispers-IsRecorded :
    (locks : Locks) (now : Time) (n : ℕ) (db : Db)
    → IsRecorded db
    → IsRecorded (expire_whispers locks now n db)
unfolding expire_whispers stale_whispers IsRecorded
expire_whispers-IsRecorded locks now n db h =
    update_whispers-IsRecorded _ (stale_whisper now) db (λ x. refl) (λ x. refl)
      (λ id x here hit.
        let passed =
          select-passes whisper_key id (is_stale locks now) (λ (w : WhisperRow). w.expires_at)
            whisper_key n db.whispers x h.0.whispers_distinct here hit in
        ground (arith, status_eq.beq_iff x.status active, status_eq.beq_iff x.status opening))
      h

release_openings-IsRecorded :
    (locks : Locks) (now : Time) (n : ℕ) (db : Db)
    → IsRecorded db
    → IsRecorded (release_openings locks now n db)
unfolding release_openings lapsed_openings IsRecorded
release_openings-IsRecorded locks now n db h =
    update_whispers-IsRecorded _ (unlocked_whisper now) db (λ x. refl) (λ x. refl)
      (λ id x here hit.
        let passed =
          select-passes whisper_key id (is_lapsed locks now)
            (λ (w : WhisperRow). sort_time w.opening_lease_until) whisper_key n db.whispers x
            h.0.whispers_distinct here hit in
        ground (arith, status_eq.beq_iff x.status opening))
      h

release_publications-IsRecorded :
    (locks : Locks) (now : Time) (n : ℕ) (db : Db)
    → IsRecorded db
    → IsRecorded (release_publications locks now n db)
unfolding release_publications
release_publications-IsRecorded locks now n db h =
    update_whispers-IsRecorded _ (retried_whisper now) db (λ x. refl) (λ x. refl)
      (λ id x here hit. omega arith) h

sweep-IsRecorded :
    (locks : Locks) (now : Time) (n : ℕ) (db : Db)
    → IsRecorded db
    → IsRecorded (sweep locks now n db)
unfolding sweep expire_drafts release_ingests IsRecorded
sweep-IsRecorded locks now n db h = release_publications-IsRecorded locks now n _ (
    release_openings-IsRecorded locks now n _ (
      expire_whispers-IsRecorded locks now n _ (
        record {
          whispers_distinct = h.0.whispers_distinct;
          events_distinct = h.0.events_distinct;
          events_below = h.0.events_below;
        },
        record { bound = h.1.bound },
      )))

purge-IsRecorded :
    (locks : Locks) (now bound : Time) (n : ℕ) (db : Db)
    → IsRecorded db
    → IsRecorded (purge locks now bound n db)
unfolding purge delete_drafts forget_whispers delete_updates delete_jobs IsRecorded
purge-IsRecorded locks now bound n db h =
    let kept =
      delete_whispers-IsRecorded (forgotten_whispers locks now n (delete_drafts locks bound n db))
        (delete_drafts locks bound n db)
        (
          record {
            whispers_distinct = h.0.whispers_distinct;
            events_distinct = h.0.events_distinct;
            events_below = h.0.events_below;
          },
          record { bound = h.1.bound },
        ) in
    (
      record {
        whispers_distinct = kept.0.whispers_distinct;
        events_distinct = kept.0.events_distinct;
        events_below = kept.0.events_below;
      },
      record { bound = kept.1.bound },
    )

-- RunCleanup, whatever rows are locked, keeps this: keys are distinct, and a one-time whisper has
-- no delivered event unless it is opened, and then one at most.
pub run_cleanup-IsRecorded :
    (env : Env) (locks : Locks) (p : CleanupParams) (db : Db)
    → IsRecorded db
    → IsRecorded (run_cleanup env locks p db).1
unfolding run_cleanup
run_cleanup-IsRecorded env locks p db h =
    let now = now_or env.clock p.now in
    let n = batch_of p.batch_size in
    let bound = processed_before p now in
    elim (Bool-cases (ltb 5000 n || not (before bound now))) [
      | inl bad ↦ rw bad h
      | inr good ↦ rw good (
          purge-IsRecorded locks now bound n (sweep locks now n db)
            (sweep-IsRecorded locks now n db h))
    ]
