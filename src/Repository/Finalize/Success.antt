-- ===== src/Repository/Finalize/Success.antt =====
-- What `FinalizeDraft` of internal/repository/finalize.go has done when it returns a whisper, and
-- when it returns an error.
use secretmediabot.Base.{
  ◌≡◌, ◌<◌, refl, ap, ◌∙◌, true, false, ◌&&◌, ◌||◌, Option, none, some, Time, ◌==◌, nat_eq, int_eq,
  list_eq, arith, is_some, Bool-cases, Option-cases, inl, inr,
}
use secretmediabot.Base.Table.{find, find_where}
use secretmediabot.Base.Table.Laws.{find_where-none, find-append-some, find-modify_hit}
use secretmediabot.Domain.Status.{DraftState, ingesting_media, draft_eq}
use secretmediabot.Domain.Whisper.{Whisper, validate_whisper}
use secretmediabot.Domain.Whisper.Laws.{IsValid, validate_whisper_iff}
use secretmediabot.Repository.Errors.{ok, unauthorized, expired, lease_lost, invalid_input}
use secretmediabot.Repository.Rows.{DraftRow, WhisperRow, Db}
use secretmediabot.Repository.Tx.{require_state, transaction, now_or, ◌>>◌}
use secretmediabot.Repository.Success.{
  Yields, bind-Yields, continue-pure-ok, take-Yields, require-Yields, transaction-Yields,
}
use secretmediabot.Repository.Mapping.{Env, whisper_key}
use secretmediabot.Repository.Cleanup.{draft_key}
use secretmediabot.Repository.Opening.Finish.{find_whisper}
use secretmediabot.Repository.Drafts.{find_draft, update_draft}
use secretmediabot.Repository.Finalize.{
  insert_whisper, put_token, store_content, store_whisper, complete_draft, completed_row,
  holds_draft, is_in_time, fits_draft, finalize_found, finalize_body, finalize_draft,
}
use secretmediabot.Repository.Finalize.Checks.{FinalizeDraftParams, is_bad_finalization}
use secretmediabot.Repository.Finalize.Rows.{whisper_row_from_finalize}
use secretmediabot.Repository.Finalize.Stored.{store_whisper_drafts, store_payloads-Untouched}

insert_whisper-found :
    (w : WhisperRow) (db : Db) → Yields (insert_whisper w) db (λ e. find_whisper w.id e ≡ some w)
unfolding insert_whisper
insert_whisper-found w db a h =
    elim (Bool-cases (
      is_some (
        find_where
          (λ (x : WhisperRow).
            x.id == w.id || x.draft_id == w.draft_id || x.open_token_hash == w.open_token_hash)
          db.whispers))) [
            | inl clash ↦ cc (rw clash at h)
            | inr free ↦ rw free (
                find-append-some whisper_key db.whispers w (
                  find_where-none whisper_key
                    (λ (x : WhisperRow).
                      x.id == w.id
                      || x.draft_id == w.draft_id
                      || x.open_token_hash == w.open_token_hash)
                    db.whispers w.id (λ x same. rw same refl) (ground (arith, free))))
          ]

store_whisper-found :
    (p : FinalizeDraftParams) (now : Time) (db : Db)
    → Yields
        (store_whisper p now)
        db
        (λ e. find_whisper p.whisper.id e ≡ some (whisper_row_from_finalize p now))
unfolding store_whisper
store_whisper-found p now db =
    let row = whisper_row_from_finalize p now in
    bind-Yields (λ e. find_whisper p.whisper.id e ≡ some row) (insert_whisper row)
      (λ _. put_token p now p.callback_token >> store_content p now) db
      (λ a done b _.
        let mid = (insert_whisper row db).1 in
        ap (λ ws. find whisper_key p.whisper.id ws)
          (store_payloads-Untouched mid.drafts mid.whispers p now mid (refl, refl)).1
        ∙ insert_whisper-found row db a done)

complete_draft_state :
    (p : FinalizeDraftParams) (now : Time) (db : Db)
    → (complete_draft p now db).1
      ≡ (update_draft p.draft_id (holds_draft p.expected_lease_until) (completed_row now) db).1
unfolding complete_draft
complete_draft_state p now db = require_state _ lease_lost _

HoldsUntil : Time → DraftRow → Type 0
HoldsUntil lease d = (d.state ≡ ingesting_media) × (d.ingest_lease_until ≡ some lease)

-- The draft that is finalized: it is the sender's, under the ingest lease, which runs, and not expired; and what
-- is left of it and of the whisper.
pub record Finalized (p : FinalizeDraftParams) (now : Time) (before e : Db) : Type 0 where
  pub draft : DraftRow
  pub found : find_draft p.draft_id before ≡ some draft
  pub same_sender : draft.sender_id ≡ p.sender_id
  pub ingesting : draft.state ≡ ingesting_media
  pub leased : draft.ingest_lease_until ≡ some p.expected_lease_until
  pub lease_runs : now < p.expected_lease_until
  pub unexpired : now < draft.expires_at
  pub same_recipient : p.whisper.recipient_id ≡ draft.recipient_id
  pub completed : find_draft p.draft_id e ≡ some (completed_row now draft)
  pub stored : find_whisper p.whisper.id e ≡ some (whisper_row_from_finalize p now)

holds-lease :
    (lease : Time) (s : DraftState) (o : Option Time)
    → (s == ingesting_media && elim o [ none ↦ false | some t ↦ t == lease ]) ≡ true
    → (s ≡ ingesting_media) × (o ≡ some lease)
holds-lease lease s none h = ground arith
holds-lease lease s (some t) h =
    ground (arith, draft_eq.beq_iff s ingesting_media, nat_eq.beq_iff t lease)

finalize_found-Finalized :
    (p : FinalizeDraftParams) (now : Time) (db : Db) (d : DraftRow)
    → find_draft p.draft_id db ≡ some d
    → Yields (finalize_found p now d) db (Finalized p now db)
unfolding finalize_found
finalize_found-Finalized p now db d there =
    let P = Finalized p now db in
    require-Yields P (d.sender_id == p.sender_id) unauthorized _ db (λ mine.
      require-Yields P (holds_draft p.expected_lease_until d) lease_lost _ db (λ held.
        require-Yields P (is_in_time now d) expired _ db (λ timely.
          require-Yields P (fits_draft p.whisper d) invalid_input
            (store_whisper p now >> complete_draft p now) db
            (λ fits.
              bind-Yields P (store_whisper p now) (λ _. complete_draft p now) db
                (λ a done b _.
                  let mid = (store_whisper p now db).1 in
                  let kept = store_whisper_drafts p now db in
                  let (ing, lease) =
                    holds-lease p.expected_lease_until d.state d.ingest_lease_until held in
                  rw (complete_draft_state p now mid) (record {
                    draft = d;
                    found = there;
                    same_sender = (int_eq.beq_iff d.sender_id p.sender_id).0 mine;
                    ingesting = ing;
                    leased = lease;
                    lease_runs = ground (arith, timely, lease);
                    unexpired = ground (arith, timely);
                    same_recipient =
                        (int_eq.beq_iff p.whisper.recipient_id d.recipient_id).0
                          (ground (arith, fits));
                    completed =
                        find-modify_hit draft_key p.draft_id (holds_draft p.expected_lease_until)
                          (completed_row now) mid.drafts d (λ x. refl)
                          (ap (λ ds. find draft_key p.draft_id ds) kept ∙ there) held;
                    stored = store_whisper-found p now db a done;
                  }))))))

finalize_body-Finalized :
    (p : FinalizeDraftParams) (now : Time) (db : Db)
    → Yields (finalize_body p now) db (Finalized p now db)
unfolding finalize_body
finalize_body-Finalized p now db =
    take-Yields (Finalized p now db) (find_draft p.draft_id) (finalize_found p now) db
      (λ d there. finalize_found-Finalized p now db d there)

checked-none :
    (p : FinalizeDraftParams) (now : Time)
    → is_bad_finalization p now ≡ false
    → validate_whisper p.whisper ≡ none
unfolding is_bad_finalization
checked-none p now h = elim (Option-cases (validate_whisper p.whisper)) [
  | inl valid ↦ valid
  | inr (e, wrong) ↦ absurd (ground (arith, h, wrong))
]

-- If FinalizeDraft returns a whisper, it is the given one and valid, the draft was the sender's,
-- unexpired and under the running ingest lease, and afterwards the draft is completed and the
-- whisper is stored.
pub finalize_draft-Finalized :
    (env : Env) (p : FinalizeDraftParams) (db : Db) (w : Whisper)
    → (finalize_draft env p db).0 ≡ ok w
    → (w ≡ p.whisper)
      × IsValid w
      × Finalized p (now_or env.clock p.now) db (finalize_draft env p db).1
unfolding finalize_draft
finalize_draft-Finalized env p db w done =
    let now = now_or env.clock p.now in
    elim (Bool-cases (is_bad_finalization p now)) [
      | inl bad ↦ cc (rw bad at done)
      | inr good ↦
          let (same, (a, ended), left) =
            continue-pure-ok (transaction (finalize_body p now) db) p.whisper w (rw good at done) in
          let finalized =
            transaction-Yields (Finalized p now db) (finalize_body p now) db
              (finalize_body-Finalized p now db) a ended in
          (
            same,
            rw same ((validate_whisper_iff p.whisper).0 (checked-none p now good)),
            rw (good, left) finalized,
          )
    ]
