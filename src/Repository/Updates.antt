-- ===== src/Repository/Updates.antt =====
-- internal/repository/updates.go: the leases on Telegram updates.
pub mod Leases
pub mod Processed
pub mod Attempts
pub mod Deletions
use secretmediabot.Base.{
  ℕ, ℤ, suc, ◌+◌, Bool, true, false, ◌&&◌, ◌||◌, not, Option, none, some, List, [], ◌∷◌, ◌++◌,
  String, Time, Bytes, Text, ◌==◌, nat_eq, int_eq, string_eq, list_eq, if◌then◌else◌, after,
  is_zero_time, is_negative, length, sha256_size, ltb, leb, is_some, is_positive, Eq, pos, negsuc,
  ◌≡◌, ◌↔◌, arith,
}
use secretmediabot.Base.Table.{find, modify, matches}
use secretmediabot.Repository.Errors.{
  Result, ok, err, invalid_input, conflict, update_dead, lease_lost,
}
use secretmediabot.Repository.Rows.{
  ProcessedUpdateRow, UpdateState, processing, processed, failed, Db,
}
use secretmediabot.Repository.Tx.{Tx, pure, raise, require, take, transaction, now_or, ◌>>=◌, ◌>>◌}
use secretmediabot.Repository.Mapping.{Env}
use secretmediabot.Repository.Statements.{safe_error_code}
use secretmediabot.Repository.Cleanup.{update_key}

pub record ClaimUpdateParams : Type 0 where
  pub telegram_update_id : ℤ
  pub update_type : String
  pub payload_sha256 : Bytes
  pub now : Time
  pub lease_until : Time
  pub max_attempts : ℤ

pub record UpdateLease : Type 0 where
  pub acquired : Bool
  pub already_done : Bool
  pub attempts : ℕ
  pub lease_until : Option Time

pub record FinishUpdateParams : Type 0 where
  pub telegram_update_id : ℤ
  pub expected_lease_until : Time
  pub error_code : Text
  pub now : Time

abbrev pub update_beq : UpdateState → UpdateState → Bool
update_beq processing processing = true
update_beq processed processed = true
update_beq failed failed = true
update_beq _ _ = false

pub update_beq_iff : (a b : UpdateState) → (update_beq a b ≡ true) ↔ (a ≡ b)
update_beq_iff a b = ground arith

instance abbrev pub update_eq : Eq UpdateState
update_eq = record { beq = update_beq; beq_iff = update_beq_iff }

unfoldable pub is_bad_claim : ClaimUpdateParams → Time → Bool
is_bad_claim p now =
    is_negative p.telegram_update_id
    || not (after p.lease_until now)
    || (not (length p.payload_sha256 == 0) && not (length p.payload_sha256 == sha256_size))

abbrev pub new_update : ClaimUpdateParams → Time → ProcessedUpdateRow
new_update p now = record {
  telegram_update_id = p.telegram_update_id;
  update_type = p.update_type;
  payload_sha256 = p.payload_sha256;
  state = processing;
  attempt_count = 1;
  lease_until = some p.lease_until;
  last_error = none;
  received_at = now;
  processed_at = none;
  updated_at = now;
}

abbrev pub reclaimed : ClaimUpdateParams → Time → ProcessedUpdateRow → ProcessedUpdateRow
reclaimed p now u = record u {
  state = processing;
  attempt_count = suc u.attempt_count;
  lease_until = some p.lease_until;
  last_error = none;
  updated_at = now;
}

-- The payload hashes of two deliveries of one update, where both are known, differ.
abbrev pub hash_changed : Bytes → Bytes → Bool
hash_changed old new = ltb 0 (length old) && ltb 0 (length new) && not (old == new)

abbrev pub is_leased : ProcessedUpdateRow → Time → Bool
is_leased u now =
    u.state == processing && elim u.lease_until [ none ↦ false | some lease ↦ after lease now ]

-- `params.MaxAttempts > 0 && existing.AttemptCount >= params.MaxAttempts`
abbrev pub is_exhausted : ℤ → ℕ → Bool
is_exhausted (pos limit) attempts = ltb 0 limit && leb limit attempts
is_exhausted (negsuc n) attempts = false

abbrev pub find_update : ℤ → Db → Option ProcessedUpdateRow
find_update id db = find update_key id db.updates

abbrev pub any_update : ProcessedUpdateRow → Bool
any_update u = true

abbrev pub update_update :
    ℤ → (ProcessedUpdateRow → Bool) → (ProcessedUpdateRow → ProcessedUpdateRow) → Tx Bool
update_update id p f db = (
  ok (matches update_key id p db.updates),
  record db { updates = modify update_key id p f db.updates },
)

abbrev pub acquired_lease : ClaimUpdateParams → ℕ → UpdateLease
acquired_lease p attempts = record {
  acquired = true;
  already_done = false;
  attempts = attempts;
  lease_until = some p.lease_until;
}

-- The branches on a row that another delivery of the update left.
unfoldable pub reclaim : ClaimUpdateParams → Time → ProcessedUpdateRow → Tx UpdateLease
reclaim p now u =
    if hash_changed u.payload_sha256 p.payload_sha256
    then raise conflict
    else if u.state == processed
    then pure (record {
      acquired = false;
      already_done = true;
      attempts = u.attempt_count;
      lease_until = none;
    })
    else if is_leased u now
    then pure (record {
      acquired = false;
      already_done = false;
      attempts = u.attempt_count;
      lease_until = u.lease_until;
    })
    else if is_exhausted p.max_attempts u.attempt_count
    then raise update_dead
    else do
      hit ← update_update p.telegram_update_id any_update (reclaimed p now)
      require hit conflict
      pure (acquired_lease p (suc u.attempt_count))

-- `INSERT ... ON CONFLICT DO NOTHING`, or the branches on the row that is there.
unfoldable pub claim_at : ClaimUpdateParams → Time → Option ProcessedUpdateRow → Tx UpdateLease
unfolding reclaim
claim_at p now none db =
    (ok (acquired_lease p 1), record db { updates = db.updates ++ new_update p now ∷ [] })
claim_at p now (some u) db = reclaim p now u db

-- The transaction of `ClaimUpdate`.
unfoldable pub claim_body : ClaimUpdateParams → Time → Tx UpdateLease
unfolding claim_at
claim_body p now db = claim_at p now (find_update p.telegram_update_id db) db

-- `Store.ClaimUpdate`
unfoldable pub claim_update : Env → ClaimUpdateParams → Tx UpdateLease
unfolding is_bad_claim claim_body
claim_update env p =
    let now = now_or env.clock p.now in
    if is_bad_claim p now then raise invalid_input else transaction (claim_body p now)

-- The row of the lease that the caller names.
abbrev pub holds_lease : FinishUpdateParams → ProcessedUpdateRow → Bool
holds_lease p u =
    u.state == processing
    && elim u.lease_until [ none ↦ false | some lease ↦ lease == p.expected_lease_until ]

abbrev pub completed_update : Time → ProcessedUpdateRow → ProcessedUpdateRow
completed_update now u = record u {
  state = processed;
  lease_until = none;
  processed_at = some now;
  updated_at = now;
}

abbrev pub failed_update : FinishUpdateParams → Time → ProcessedUpdateRow → ProcessedUpdateRow
failed_update p now u = record u {
  state = failed;
  lease_until = none;
  last_error = some (safe_error_code p.error_code);
  updated_at = now;
}

abbrev pub is_bad_finish : FinishUpdateParams → Bool
is_bad_finish p = is_negative p.telegram_update_id || is_zero_time p.expected_lease_until

unfoldable pub finish_update :
    FinishUpdateParams → (ProcessedUpdateRow → ProcessedUpdateRow) → Tx (Unit {0})
finish_update p f =
    if is_bad_finish p
    then raise invalid_input
    else do hit ← update_update p.telegram_update_id (holds_lease p) f; require hit lease_lost

-- `Store.CompleteUpdate`
unfoldable pub complete_update : Env → FinishUpdateParams → Tx (Unit {0})
unfolding finish_update
complete_update env p = finish_update p (completed_update (now_or env.clock p.now))

-- `Store.FailUpdate`
unfoldable pub fail_update : Env → FinishUpdateParams → Tx (Unit {0})
unfolding finish_update
fail_update env p = finish_update p (failed_update p (now_or env.clock p.now))
