-- ===== src/Repository/Publish.antt =====
-- internal/repository/publish.go: the leases of the publication workers.
pub mod Steps
pub mod Path
use secretmediabot.Base.{
  ℕ, ℤ, suc, Bool, true, false, ◌&&◌, ◌||◌, not, Option, none, some, List, [], ◌∷◌, Uuid, Time,
  Bytes, Text, ◌==◌, nat_eq, if◌then◌else◌, after, is_zero_time, is_positive, nil_uuid, leb, ltb,
  count, is_some,
}
use secretmediabot.Base.Table.{find, find_where}
use secretmediabot.Base.Select.{select, sort_by, filter}
use secretmediabot.Domain.Status.{
  WhisperStatus, active, status_eq, PublishState, pending, publishing, published, retry_wait,
  publish_eq,
}
use secretmediabot.Domain.Whisper.{Whisper}
use secretmediabot.Repository.Errors.{
  Result, ok, err, invalid_input, not_active, not_found, lease_lost, conflict,
}
use secretmediabot.Repository.Rows.{WhisperRow, EncryptedCallbackTokenRow, Db}
use secretmediabot.Repository.Tx.{Tx, pure, raise, require, take, transaction, now_or, ◌>>=◌, ◌>>◌}
use secretmediabot.Repository.Mapping.{
  Env, whisper_key, load_whisper_projection, to_domain, StoredEncryptedPayload, callback_to_stored,
}
use secretmediabot.Repository.Statements.{update_whisper, lift, safe_error_code}

pub record ClaimPublishParams : Type 0 where
  pub whisper_id : Uuid
  pub now : Time
  pub lease_until : Time

pub record PublishClaim : Type 0 where
  pub whisper : Whisper
  pub callback_token : StoredEncryptedPayload

pub record MarkPublishedParams : Type 0 where
  pub whisper_id : Uuid
  pub expected_lease_until : Time
  pub public_message_id : ℤ
  pub now : Time

pub record MarkPublishFailedParams : Type 0 where
  pub whisper_id : Uuid
  pub expected_lease_until : Time
  pub now : Time
  pub retry_at : Option Time
  pub error_code : Text
  pub terminal : Bool

-- `loadPublishClaim`
abbrev pub token_of : Uuid → Db → Option EncryptedCallbackTokenRow
token_of id db = find_where (λ (t : EncryptedCallbackTokenRow). t.whisper_id == id) db.callbacks

unfoldable pub load_publish_claim : Env → Uuid → Tx PublishClaim
load_publish_claim env id = do
  row ← load_whisper_projection id
  whisper ← lift (to_domain env [] row)
  token ← take (token_of id)
  pure (record { whisper = whisper; callback_token = callback_to_stored token })

-- The rows that a worker may claim.
abbrev pub is_claimable : Time → WhisperRow → Bool
is_claimable now w =
    w.status == active
    && ltb now w.expires_at
    && (w.publish_state == pending || w.publish_state == retry_wait)
    && leb w.next_publish_attempt_at now

abbrev pub publishing_row : Time → Time → WhisperRow → WhisperRow
publishing_row lease now w = record w {
  publish_state = publishing;
  publish_attempt_count = suc w.publish_attempt_count;
  publish_lease_until = some lease;
  last_publish_error = none;
  updated_at = now;
}

unfoldable pub claim_publish_body : Env → ClaimPublishParams → Time → Tx PublishClaim
unfolding load_publish_claim
claim_publish_body env p now = do
  hit ← update_whisper p.whisper_id (is_claimable now) (publishing_row p.lease_until now)
  require hit not_active
  load_publish_claim env p.whisper_id

-- `Store.ClaimPublish`
unfoldable pub claim_publish : Env → ClaimPublishParams → Tx PublishClaim
unfolding claim_publish_body
claim_publish env p =
    let now = now_or env.clock p.now in
    if p.whisper_id == nil_uuid || not (after p.lease_until now)
    then raise invalid_input
    else transaction (claim_publish_body env p now)

-- `ORDER BY next_publish_attempt_at, created_at, id`: the sort by two columns keeps the order of
-- equal rows, which the sort by the key gives.
unfoldable pub publish_candidates : (Uuid → Bool) → Time → Db → List WhisperRow
publish_candidates locked now db =
    select (λ (w : WhisperRow). is_claimable now w && not (locked w.id))
      (λ (w : WhisperRow). w.next_publish_attempt_at) (λ (w : WhisperRow). w.created_at) 1
      (sort_by whisper_key whisper_key db.whispers)

abbrev pub any_whisper : WhisperRow → Bool
any_whisper w = true

unfoldable pub claim_candidate : Env → Time → Time → List WhisperRow → Tx PublishClaim
unfolding load_publish_claim
claim_candidate env lease now [] = raise not_found
claim_candidate env lease now (w ∷ ws) = do
  _ ← update_whisper w.id any_whisper (publishing_row lease now)
  load_publish_claim env w.id

unfoldable pub claim_next_body : Env → (Uuid → Bool) → Time → Time → Tx PublishClaim
unfolding claim_candidate
claim_next_body env locked lease now db =
    claim_candidate env lease now (publish_candidates locked now db) db

-- `Store.ClaimNextPublish`
unfoldable pub claim_next_publish : Env → (Uuid → Bool) → Time → Time → Tx PublishClaim
unfolding claim_next_body
claim_next_publish env locked value lease =
    let now = now_or env.clock value in
    if not (after lease now)
    then raise invalid_input
    else transaction (claim_next_body env locked lease now)

abbrev pub holds_publish : Time → WhisperRow → Bool
holds_publish expected w =
    w.publish_state == publishing
    && elim w.publish_lease_until [ none ↦ false | some lease ↦ lease == expected ]

abbrev pub published_row : MarkPublishedParams → Time → WhisperRow → WhisperRow
published_row p now w = record w {
  publish_state = published;
  publish_lease_until = none;
  public_message_id = some p.public_message_id;
  published_at = some now;
  updated_at = now;
}

-- `DELETE FROM encrypted_callback_tokens`, `ErrConflict` unless it deletes one row.
unfoldable pub drop_token : Uuid → Tx (Unit {0})
drop_token id db =
    if count (λ (t : EncryptedCallbackTokenRow). t.whisper_id == id) db.callbacks == 1
    then (
      ok tt,
      record db {
        callbacks =
            filter (λ (t : EncryptedCallbackTokenRow). not (t.whisper_id == id)) db.callbacks;
      },
    )
    else (err conflict, db)

unfoldable pub mark_published_body : MarkPublishedParams → Time → Tx (Unit {0})
unfolding drop_token
mark_published_body p now = do
  hit ← update_whisper p.whisper_id (holds_publish p.expected_lease_until) (published_row p now)
  require hit lease_lost
  drop_token p.whisper_id

-- `Store.MarkPublished`
unfoldable pub mark_published : Env → MarkPublishedParams → Tx (Unit {0})
unfolding mark_published_body
mark_published env p =
    if p.whisper_id == nil_uuid
      || not (is_positive p.public_message_id)
      || is_zero_time p.expected_lease_until
    then raise invalid_input
    else transaction (mark_published_body p (now_or env.clock p.now))

abbrev pub failed_row :
    MarkPublishFailedParams → PublishState → Time → Time → WhisperRow → WhisperRow
failed_row p state next now w = record w {
  publish_state = state;
  publish_lease_until = none;
  next_publish_attempt_at = next;
  last_publish_error = some (safe_error_code p.error_code);
  updated_at = now;
}

unfoldable pub set_failed : MarkPublishFailedParams → PublishState → Time → Time → Tx (Unit {0})
set_failed p state next now = do
  hit ←
      update_whisper p.whisper_id (holds_publish p.expected_lease_until)
        (failed_row p state next now)
  require hit lease_lost

unfoldable pub retry_publish : MarkPublishFailedParams → Option Time → Time → Tx (Unit {0})
unfolding set_failed
retry_publish p none now = raise invalid_input
retry_publish p (some retry) now =
    if after retry now then set_failed p retry_wait retry now else raise invalid_input

-- `Store.MarkPublishFailed`
unfoldable pub mark_publish_failed : Env → MarkPublishFailedParams → Tx (Unit {0})
unfolding set_failed retry_publish
mark_publish_failed env p =
    let now = now_or env.clock p.now in
    if p.whisper_id == nil_uuid || is_zero_time p.expected_lease_until
    then raise invalid_input
    else if p.terminal
    then set_failed p PublishState.failed now now
    else retry_publish p p.retry_at now
