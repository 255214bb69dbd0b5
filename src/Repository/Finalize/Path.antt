-- ===== src/Repository/Finalize/Path.antt =====
-- Sequences of the calls on drafts of internal/repository.
use secretmediabot.Base.{
  Bool-cases, ℤ, ◌≡◌, refl, Bool, true, ◌||◌, not, some, List, [], ◌∷◌, Uuid, Time, ◌==◌, nat_eq,
  int_eq, list_eq, after, arith, inl, inr, ◌⊎◌, nil_uuid, is_zero_time, is_positive,
}
use secretmediabot.Base.Table.{Distinct}
use secretmediabot.Domain.Status.{
  DraftState, awaiting_media, ingesting_media, completed, cancelled, draft_eq,
}
use secretmediabot.Repository.Errors.{
  unauthorized, expired, lease_lost, invalid_input, conflict, not_active, too_many_active_drafts,
  whisper_rate_limit,
}
use secretmediabot.Repository.Rows.{DraftRow, Db}
use secretmediabot.Repository.Tx.{
  Tx, transaction, transaction_keeps, bind_keeps, if_keeps, require_keeps, take_keeps,
  require_state, require, raise, pure, pure_keeps, now_or, ◌>>=◌, ◌>>◌,
}
use secretmediabot.Repository.Mapping.{Env}
use secretmediabot.Repository.Cleanup.{draft_key}
use secretmediabot.Repository.Drafts.{
  CreateDraftParams, ClaimDraftIngestParams, ReleaseDraftIngestParams, CancelDraftParams,
  find_draft, update_draft, insert_draft, create_draft_body, create_draft, is_bad_creation,
  created_row, is_ingestable, ingesting_row, returned_draft, claim_ingest_statement,
  claim_draft_ingest, claim_latest_draft_ingest, holds_ingest, awaiting_row, release_draft_ingest,
  is_cancellable, cancelled_row, cancel_draft, cancel_latest_draft_for_sender, is_active_of,
  count_active, count_recent, reaches, max_active, max_recent, recent_since, draft_to_domain,
  candidate_draft, move_candidate,
}
use secretmediabot.Repository.Finalize.{
  is_in_time, holds_draft, fits_draft, completed_row, store_whisper, complete_draft, finalize_found,
  finalize_body, finalize_draft,
}
use secretmediabot.Repository.Finalize.Checks.{FinalizeDraftParams, is_bad_finalization}
use secretmediabot.Repository.Finalize.Stored.{store_whisper_drafts}
use secretmediabot.Repository.Finalize.Moves.{
  ◌↣◌, ingest, give_back, finish, withdraw, withdraw_ingest, Stays, Held, Moved, Held-Moved,
  update-Moved, insert-Moved, returned-Moved, move-Moved,
}

pub data DraftCall : Type 0 where
  create : (DraftRow → Bool) → Env → CreateDraftParams → DraftCall
  claim : Env → ClaimDraftIngestParams → DraftCall
  claim_latest : Env → (Uuid → Bool) → ℤ → Time → Time → DraftCall
  release : Env → ReleaseDraftIngestParams → DraftCall
  cancel : Env → CancelDraftParams → DraftCall
  cancel_latest : Env → (Uuid → Bool) → ℤ → Time → DraftCall
  finalize : Env → FinalizeDraftParams → DraftCall

unfoldable pub run_draft_call : DraftCall → Db → Db
run_draft_call (create known env p) db = (create_draft known env p db).1
run_draft_call (claim env p) db = (claim_draft_ingest env p db).1
run_draft_call (claim_latest env locked sender now lease) db =
    (claim_latest_draft_ingest env locked sender now lease db).1
run_draft_call (release env p) db = (release_draft_ingest env p db).1
run_draft_call (cancel env p) db = (cancel_draft env p db).1
run_draft_call (cancel_latest env locked sender now) db =
    (cancel_latest_draft_for_sender env locked sender now db).1
run_draft_call (finalize env p) db = (finalize_draft env p db).1

unfoldable pub run_draft_calls : List DraftCall → Db → Db
unfolding run_draft_call
run_draft_calls [] db = db
run_draft_calls (c ∷ cs) db = run_draft_calls cs (run_draft_call c db)

-- The states before and after the statements.
ingestable-Stays :
    (sender : ℤ) (now : Time) (x : DraftRow)
    → is_ingestable sender now x ≡ true
    → Stays x.state ingesting_media
ingestable-Stays sender now x h = elim (Bool-cases (x.state == awaiting_media)) [
  | inl waits ↦ inr (rw ((draft_eq.beq_iff x.state awaiting_media).0 waits) ingest)
  | inr busy ↦ inl ((draft_eq.beq_iff x.state ingesting_media).0 (ground (arith, h, busy)))
]

held-Stays : (s t : DraftState) → ingesting_media ↣ t → (s == ingesting_media) ≡ true → Stays s t
held-Stays s t e h = inr (rw ((draft_eq.beq_iff s ingesting_media).0 h) e)

cancellable-Stays :
    (s : DraftState) → (s == awaiting_media || s == ingesting_media) ≡ true → Stays s cancelled
cancellable-Stays s h = elim (Bool-cases (s == awaiting_media)) [
  | inl waits ↦ inr (rw ((draft_eq.beq_iff s awaiting_media).0 waits) withdraw)
  | inr busy ↦
      inr (rw ((draft_eq.beq_iff s ingesting_media).0 (ground (arith, h, busy))) withdraw_ingest)
]

module _ (id : Uuid) (s : DraftState) (sender : ℤ) where
  abbrev M : Db → Type 0
  M db = Moved id s sender db

  abbrev H : Db → Type 0
  H db = Held id s sender db

  -- A call on a draft in the state `s` changes it once at most.
  abbrev Moves : {A : Type 0} → Tx A → Type 0
  Moves m = (db : Db) → H db → M (m db).1

  before_call : (db : Db) → H db → M db
  before_call db h = Held-Moved id s sender db h

  same_drafts-Held : (d e : Db) → e.drafts ≡ d.drafts → H d → H e
  unfolding Held
  same_drafts-Held d e same h = rw same h

  create_draft-Moved :
      (known : DraftRow → Bool) (env : Env) (p : CreateDraftParams)
      → Moves (create_draft known env p)
  unfolding create_draft create_draft_body count_active count_recent
  create_draft-Moved known env p db h =
      let m = before_call db h in
      let now = now_or env.clock p.now in
      let insert = insert_draft known (created_row p) in
      if_keeps M (is_bad_creation p now) (raise invalid_input)
        (transaction (create_draft_body known p now) >>= λ _.
          pure (draft_to_domain (created_row p)))
        db (λ _. m)
        (λ _.
          pure_keeps M (transaction (create_draft_body known p now))
            (λ _. draft_to_domain (created_row p)) db
            (transaction_keeps M (create_draft_body known p now) db m (
              bind_keeps M (count_active p.draft.sender_id now)
                (λ active.
                  require (not (reaches active (max_active p))) too_many_active_drafts
                  >> (count_recent p.draft.sender_id (recent_since p now) >>= λ recent.
                      require (not (reaches recent (max_recent p))) whisper_rate_limit >> insert))
                db m
                (λ active _.
                  require_keeps M (not (reaches active (max_active p))) too_many_active_drafts _ db
                    m
                    (λ _.
                      bind_keeps M (count_recent p.draft.sender_id (recent_since p now))
                        (λ recent.
                          require (not (reaches recent (max_recent p))) whisper_rate_limit
                          >> insert)
                        db m
                        (λ recent _.
                          require_keeps M (not (reaches recent (max_recent p))) whisper_rate_limit
                            insert db m
                            (λ _. insert-Moved id s sender known (created_row p) db m)))))))

  claim_draft_ingest-Moved :
      (env : Env) (p : ClaimDraftIngestParams) → Moves (claim_draft_ingest env p)
  unfolding claim_draft_ingest claim_ingest_statement
  claim_draft_ingest-Moved env p db h =
      let m = before_call db h in
      let now = now_or env.clock p.now in
      let claimed =
        update-Moved id s sender p.draft_id (is_ingestable p.sender_id now)
          (ingesting_row now p.lease_until) db (λ x. refl) (λ x. refl)
          (λ x _ pass. ingestable-Stays p.sender_id now x pass) h in
      if_keeps M
        (p.draft_id == nil_uuid || not (is_positive p.sender_id) || not (after p.lease_until now))
        (raise invalid_input) (claim_ingest_statement p now) db (λ _. m)
        (λ _.
          bind_keeps M
            (update_draft p.draft_id (is_ingestable p.sender_id now)
              (ingesting_row now p.lease_until))
            (λ hit. require hit conflict >> returned_draft p.draft_id) db claimed
            (λ hit _.
              require_keeps M hit conflict (returned_draft p.draft_id) _ claimed
                (λ _. returned-Moved id s sender p.draft_id _ claimed)))

  claim_latest-Moved :
      (env : Env) (locked : Uuid → Bool) (k : ℤ) (value lease : Time)
      → Moves (claim_latest_draft_ingest env locked k value lease)
  unfolding claim_latest_draft_ingest
  claim_latest-Moved env locked k value lease db h =
      let m = before_call db h in
      let now = now_or env.clock value in
      if_keeps M (not (is_positive k) || not (after lease now)) (raise invalid_input)
        (λ d.
          move_candidate (ingesting_row now lease) (candidate_draft locked (is_ingestable k now) d)
            d)
        db (λ _. m)
        (λ _.
          move-Moved id s sender locked (is_ingestable k now) (ingesting_row now lease) _ db refl
            (λ x. refl) (λ x. refl) (λ x pass. ingestable-Stays k now x pass) h)

  release-Moved : (env : Env) (p : ReleaseDraftIngestParams) → Moves (release_draft_ingest env p)
  unfolding release_draft_ingest
  release-Moved env p db h =
      let m = before_call db h in
      let now = now_or env.clock p.now in
      let holds = holds_ingest p.sender_id p.expected_lease_until in
      let released =
        update-Moved id s sender p.draft_id holds (awaiting_row now) db (λ x. refl) (λ x. refl)
          (λ x _ pass. held-Stays x.state awaiting_media give_back (ground (arith, pass))) h in
      if_keeps M
        (p.draft_id == nil_uuid
          || not (is_positive p.sender_id)
          || is_zero_time p.expected_lease_until)
        (raise invalid_input)
        (update_draft p.draft_id holds (awaiting_row now) >>= λ hit. require hit lease_lost) db
        (λ _. m)
        (λ _.
          bind_keeps M (update_draft p.draft_id holds (awaiting_row now))
            (λ hit. require hit lease_lost) db released
            (λ hit _. rw (require_state hit lease_lost _) released))

  cancel-Moved : (env : Env) (p : CancelDraftParams) → Moves (cancel_draft env p)
  unfolding cancel_draft
  cancel-Moved env p db h =
      let m = before_call db h in
      let now = now_or env.clock p.now in
      let gone =
        update-Moved id s sender p.draft_id (is_cancellable p.sender_id) (cancelled_row now) db
          (λ x. refl) (λ x. refl) (λ x _ pass. cancellable-Stays x.state (ground (arith, pass)))
          h in
      if_keeps M (p.draft_id == nil_uuid || not (is_positive p.sender_id)) (raise invalid_input)
        (update_draft p.draft_id (is_cancellable p.sender_id) (cancelled_row now) >>= λ hit.
          require hit not_active)
        db (λ _. m)
        (λ _.
          bind_keeps M (update_draft p.draft_id (is_cancellable p.sender_id) (cancelled_row now))
            (λ hit. require hit not_active) db gone
            (λ hit _. rw (require_state hit not_active _) gone))

  cancel_latest-Moved :
      (env : Env) (locked : Uuid → Bool) (k : ℤ) (value : Time)
      → Moves (cancel_latest_draft_for_sender env locked k value)
  unfolding cancel_latest_draft_for_sender
  cancel_latest-Moved env locked k value db h =
      let m = before_call db h in
      let now = now_or env.clock value in
      if_keeps M (not (is_positive k)) (raise invalid_input)
        (λ d. move_candidate (cancelled_row now) (candidate_draft locked (is_active_of k now) d) d)
        db (λ _. m)
        (λ _.
          move-Moved id s sender locked (is_active_of k now) (cancelled_row now) _ db refl
            (λ x. refl) (λ x. refl) (λ x pass. cancellable-Stays x.state (ground (arith, pass))) h)

  store_whisper-Held :
      (p : FinalizeDraftParams) (now : Time) (db : Db) → H db → H (store_whisper p now db).1
  store_whisper-Held p now db h =
      same_drafts-Held db (store_whisper p now db).1 (store_whisper_drafts p now db) h

  complete_draft-Moved : (p : FinalizeDraftParams) (now : Time) → Moves (complete_draft p now)
  unfolding complete_draft
  complete_draft-Moved p now db h =
      let m = before_call db h in
      let done =
        update-Moved id s sender p.draft_id (holds_draft p.expected_lease_until) (completed_row now)
          db (λ x. refl) (λ x. refl)
          (λ x _ pass. held-Stays x.state completed finish (ground (arith, pass))) h in
      bind_keeps M
        (update_draft p.draft_id (holds_draft p.expected_lease_until) (completed_row now))
        (λ hit. require hit lease_lost) db done (λ hit _. rw (require_state hit lease_lost _) done)

  finalize_found-Moved :
      (p : FinalizeDraftParams) (now : Time) (d : DraftRow) → Moves (finalize_found p now d)
  unfolding finalize_found
  finalize_found-Moved p now d db h =
      let m = before_call db h in
      let stored = store_whisper-Held p now db h in
      require_keeps M (d.sender_id == p.sender_id) unauthorized _ db m (λ _.
        require_keeps M (holds_draft p.expected_lease_until d) lease_lost _ db m (λ _.
          require_keeps M (is_in_time now d) expired _ db m (λ _.
            require_keeps M (fits_draft p.whisper d) invalid_input
              (store_whisper p now >> complete_draft p now) db m
              (λ _.
                bind_keeps M (store_whisper p now) (λ _. complete_draft p now) db
                  (before_call (store_whisper p now db).1 stored)
                  (λ _ _. complete_draft-Moved p now (store_whisper p now db).1 stored)))))

  finalize-Moved : (env : Env) (p : FinalizeDraftParams) → Moves (finalize_draft env p)
  unfolding finalize_draft finalize_body
  finalize-Moved env p db h =
      let now = now_or env.clock p.now in
      let m = before_call db h in
      if_keeps M (is_bad_finalization p now) (raise invalid_input)
        (transaction (finalize_body p now) >>= λ _. pure p.whisper) db (λ _. m)
        (λ _.
          pure_keeps M (transaction (finalize_body p now)) (λ _. p.whisper) db
            (transaction_keeps M (finalize_body p now) db m (
              take_keeps M (find_draft p.draft_id) (finalize_found p now) db m
                (λ d _. finalize_found-Moved p now d db h))))

  run_draft_call-Moved : (c : DraftCall) (db : Db) → H db → M (run_draft_call c db)
  unfolding run_draft_call
  run_draft_call-Moved (create known env p) db h = create_draft-Moved known env p db h
  run_draft_call-Moved (claim env p) db h = claim_draft_ingest-Moved env p db h
  run_draft_call-Moved (claim_latest env locked k now lease) db h =
      claim_latest-Moved env locked k now lease db h
  run_draft_call-Moved (release env p) db h = release-Moved env p db h
  run_draft_call-Moved (cancel env p) db h = cancel-Moved env p db h
  run_draft_call-Moved (cancel_latest env locked k now) db h =
      cancel_latest-Moved env locked k now db h
  run_draft_call-Moved (finalize env p) db h = finalize-Moved env p db h

-- The row of `id` is there, in some state and with one sender.
abbrev IsPresent : Uuid → ℤ → Db → Type 0
IsPresent id sender db = (s : DraftState) × Held id s sender db

run_draft_calls-IsPresent :
    (id : Uuid) (sender : ℤ) (cs : List DraftCall) (db : Db)
    → IsPresent id sender db
    → IsPresent id sender (run_draft_calls cs db)
unfolding run_draft_calls Held Moved
run_draft_calls-IsPresent id sender [] db h = h
run_draft_calls-IsPresent id sender (c ∷ cs) db (s, h) =
    let (d, (x, found, _, same)) = run_draft_call-Moved id s sender c db h in
    run_draft_calls-IsPresent id sender cs (run_draft_call c db)
      (x.state, (d, (x, found, refl, same)))

-- Where draft keys are distinct, any sequence of CreateDraft, ClaimDraftIngest,
-- ClaimLatestDraftIngest, ReleaseDraftIngest, CancelDraft, CancelLatestDraftForSender and
-- FinalizeDraft calls, whatever rows are locked, leaves a draft in its table with its sender; and
-- each further such call leaves its state or makes one of these changes: awaiting_media to
-- ingesting_media and back, ingesting_media to completed, and either of the two to cancelled. So
-- completed and cancelled are final under these calls.
pub draft_path :
    (cs : List DraftCall) (c : DraftCall) (db : Db) (id : Uuid) (d : DraftRow)
    → Distinct draft_key db.drafts
    → find_draft id db ≡ some d
    → (u v : DraftRow) × (find_draft id (run_draft_calls cs db) ≡ some u)
      × (find_draft id (run_draft_call c (run_draft_calls cs db)) ≡ some v)
      × ((u.state ≡ v.state) ⊎ (u.state ↣ v.state))
      × (u.sender_id ≡ d.sender_id)
      × (v.sender_id ≡ d.sender_id)
unfolding Held Moved
draft_path cs c db id d keys found =
    let (s, (distinct, (u, there, state, same))) =
      run_draft_calls-IsPresent id d.sender_id cs db (d.state, (keys, (d, found, refl, refl))) in
    let mid = run_draft_calls cs db in
    let (_, (v, after_call, step, kept)) =
      run_draft_call-Moved id u.state d.sender_id c mid (distinct, (u, there, refl, same)) in
    (u, v, there, after_call, step, same, kept)
