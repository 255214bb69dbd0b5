-- ===== src/Repository/Publish/Path.antt =====
-- Sequences of the calls of internal/repository/publish.go.
use secretmediabot.Base.{
  ◌≡◌, refl, Bool, true, ◌||◌, Option, none, some, List, [], ◌∷◌, Uuid, Time, ◌==◌, nat_eq,
  if◌then◌else◌, after, arith, Bool-cases, inl, inr, ◌⊎◌, count, nil_uuid, is_zero_time,
}
use secretmediabot.Base.Table.{Distinct}
use secretmediabot.Domain.Status.{
  WhisperStatus, status_eq, PublishState, publishing, published, retry_wait, publish_eq,
}
use secretmediabot.Repository.Errors.{lease_lost, invalid_input}
use secretmediabot.Repository.Rows.{WhisperRow, EncryptedCallbackTokenRow, Db}
use secretmediabot.Repository.Tx.{
  transaction, transaction_keeps, bind_keeps, if_keeps, require_keeps, require_state, require,
  raise, now_or, ◌>>◌,
}
use secretmediabot.Repository.Mapping.{Env, whisper_key}
use secretmediabot.Repository.Statements.{update_whisper}
use secretmediabot.Repository.Opening.Finish.{find_whisper}
use secretmediabot.Repository.Publish.{
  ClaimPublishParams, MarkPublishedParams, MarkPublishFailedParams, claim_publish,
  claim_next_publish, holds_publish, published_row, drop_token, mark_published_body, mark_published,
  failed_row, set_failed, retry_publish, mark_publish_failed,
}
use secretmediabot.Repository.Publish.Steps.{
  ◌⇾◌, deliver, postpone, give_up, Held, Moved, Held-Moved, update-Moved, claim_publish-Moved,
  claim_next_publish-Moved,
}

pub data PublishCall : Type 0 where
  claim : Env → ClaimPublishParams → PublishCall
  claim_next : Env → (Uuid → Bool) → Time → Time → PublishCall
  mark : Env → MarkPublishedParams → PublishCall
  mark_failed : Env → MarkPublishFailedParams → PublishCall

unfoldable pub run_publish_call : PublishCall → Db → Db
run_publish_call (claim env p) db = (claim_publish env p db).1
run_publish_call (claim_next env locked value lease) db =
    (claim_next_publish env locked value lease db).1
run_publish_call (mark env p) db = (mark_published env p db).1
run_publish_call (mark_failed env p) db = (mark_publish_failed env p db).1

unfoldable pub run_publish_calls : List PublishCall → Db → Db
unfolding run_publish_call
run_publish_calls [] db = db
run_publish_calls (c ∷ cs) db = run_publish_calls cs (run_publish_call c db)

held-edge :
    (lease : Time) (x : WhisperRow) (next : PublishState)
    → publishing ⇾ next
    → holds_publish lease x ≡ true
    → x.publish_state ⇾ next
held-edge lease x next e h =
    rw ((publish_eq.beq_iff x.publish_state publishing).0 (ground (arith, h))) e

module _ (id : Uuid) (s : PublishState) (st : WhisperStatus) where
  drop_token-Moved : (k : Uuid) (db : Db) → Moved id s st db → Moved id s st (drop_token k db).1
  unfolding drop_token Moved
  drop_token-Moved k db h =
      elim (Bool-cases
        (count (λ (t : EncryptedCallbackTokenRow). t.whisper_id == k) db.callbacks == 1)) [
          | inl one ↦ rw one h
          | inr other ↦ rw other h
        ]

  mark_published-Moved :
      (env : Env) (p : MarkPublishedParams) (db : Db)
      → Held id s st db
      → Moved id s st (mark_published env p db).1
  unfolding mark_published mark_published_body
  mark_published-Moved env p db h =
      let now = now_or env.clock p.now in
      let marked =
        update-Moved id s st p.whisper_id (holds_publish p.expected_lease_until)
          (published_row p now) db (λ x. refl) (λ x. refl)
          (λ x _ pass. held-edge p.expected_lease_until x published deliver pass) h in
      if_keeps (Moved id s st) _ (raise invalid_input) (transaction (mark_published_body p now)) db
        (λ _. Held-Moved id s st db h)
        (λ _.
          transaction_keeps (Moved id s st) (mark_published_body p now) db (Held-Moved id s st db h)
            (bind_keeps (Moved id s st)
              (update_whisper p.whisper_id (holds_publish p.expected_lease_until)
                (published_row p now))
              (λ hit. require hit lease_lost >> drop_token p.whisper_id) db marked
              (λ hit _.
                require_keeps (Moved id s st) hit lease_lost (drop_token p.whisper_id) _ marked
                  (λ _. drop_token-Moved p.whisper_id _ marked))))

  set_failed-Moved :
      (p : MarkPublishFailedParams) (state : PublishState) (next now : Time) (db : Db)
      → publishing ⇾ state
      → Held id s st db
      → Moved id s st (set_failed p state next now db).1
  unfolding set_failed
  set_failed-Moved p state next now db e h =
      let marked =
        update-Moved id s st p.whisper_id (holds_publish p.expected_lease_until)
          (failed_row p state next now) db (λ x. refl) (λ x. refl)
          (λ x _ pass. held-edge p.expected_lease_until x state e pass) h in
      bind_keeps (Moved id s st)
        (update_whisper p.whisper_id (holds_publish p.expected_lease_until)
          (failed_row p state next now))
        (λ hit. require hit lease_lost) db marked
        (λ hit _. rw (require_state hit lease_lost _) marked)

  retry_publish-Moved :
      (p : MarkPublishFailedParams) (o : Option Time) (now : Time) (db : Db)
      → Held id s st db
      → Moved id s st (retry_publish p o now db).1
  unfolding retry_publish
  retry_publish-Moved p none now db h = Held-Moved id s st db h
  retry_publish-Moved p (some retry) now db h =
      if_keeps (Moved id s st) (after retry now) (set_failed p retry_wait retry now)
        (raise invalid_input) db (λ _. set_failed-Moved p retry_wait retry now db postpone h)
        (λ _. Held-Moved id s st db h)

  mark_publish_failed-Moved :
      (env : Env) (p : MarkPublishFailedParams) (db : Db)
      → Held id s st db
      → Moved id s st (mark_publish_failed env p db).1
  unfolding mark_publish_failed
  mark_publish_failed-Moved env p db h =
      let now = now_or env.clock p.now in
      if_keeps (Moved id s st) (p.whisper_id == nil_uuid || is_zero_time p.expected_lease_until)
        (raise invalid_input)
        (if p.terminal
          then set_failed p PublishState.failed now now
          else retry_publish p p.retry_at now)
        db (λ _. Held-Moved id s st db h)
        (λ _.
          if_keeps (Moved id s st) p.terminal (set_failed p PublishState.failed now now)
            (retry_publish p p.retry_at now) db
            (λ _. set_failed-Moved p PublishState.failed now now db give_up h)
            (λ _. retry_publish-Moved p p.retry_at now db h))

  run_publish_call-Moved :
      (c : PublishCall) (db : Db) → Held id s st db → Moved id s st (run_publish_call c db)
  unfolding run_publish_call
  run_publish_call-Moved (claim env p) db h = claim_publish-Moved id s st env p db h
  run_publish_call-Moved (claim_next env locked value lease) db h =
      claim_next_publish-Moved id s st env locked value lease db h
  run_publish_call-Moved (mark env p) db h = mark_published-Moved env p db h
  run_publish_call-Moved (mark_failed env p) db h = mark_publish_failed-Moved env p db h

-- The row of `id` is there, with some publication state and status `st`.
abbrev IsPresent : Uuid → WhisperStatus → Db → Type 0
IsPresent id st db = (s : PublishState) × Held id s st db

run_publish_calls-IsPresent :
    (id : Uuid) (st : WhisperStatus) (cs : List PublishCall) (db : Db)
    → IsPresent id st db
    → IsPresent id st (run_publish_calls cs db)
unfolding run_publish_calls Held Moved
run_publish_calls-IsPresent id st [] db h = h
run_publish_calls-IsPresent id st (c ∷ cs) db (s, h) =
    let (d, (w, found, _, same)) = run_publish_call-Moved id s st c db h in
    run_publish_calls-IsPresent id st cs (run_publish_call c db)
      (w.publish_state, (d, (w, found, refl, same)))

-- Where whisper keys are distinct, any sequence of ClaimPublish, ClaimNextPublish, MarkPublished
-- and MarkPublishFailed calls, whatever rows are locked, leaves a whisper in its table with its
-- status; and each further such call leaves its publication state or makes one of these changes:
-- pending or retry_wait to publishing, and publishing to published, retry_wait or failed. So
-- published and failed are final under these calls.
pub publication_path :
    (cs : List PublishCall) (c : PublishCall) (db : Db) (id : Uuid) (w : WhisperRow)
    → Distinct whisper_key db.whispers
    → find_whisper id db ≡ some w
    → (u v : WhisperRow) × (find_whisper id (run_publish_calls cs db) ≡ some u)
      × (find_whisper id (run_publish_call c (run_publish_calls cs db)) ≡ some v)
      × ((u.publish_state ≡ v.publish_state) ⊎ (u.publish_state ⇾ v.publish_state))
      × (u.status ≡ w.status)
      × (v.status ≡ w.status)
unfolding Held Moved
publication_path cs c db id w keys found =
    let (s, (d, (u, there, state, same))) =
      run_publish_calls-IsPresent id w.status cs db
        (w.publish_state, (keys, (w, found, refl, refl))) in
    let mid = run_publish_calls cs db in
    let (_, (v, after_call, step, kept)) =
      run_publish_call-Moved id u.publish_state w.status c mid (d, (u, there, refl, same)) in
    (u, v, there, after_call, step, same, kept)
