-- ===== src/Repository/Opening/Reserve.antt =====
-- internal/repository/opening.go: `ReserveOpen`.
use secretmediabot.Base.{
  is_positive, Bool, true, ◌&&◌, ◌||◌, not, Option, none, some, Uuid, Time, after, sha256_size,
  length, ◌==◌, nat_eq, int_eq, string_eq, list_eq, if◌then◌else◌,
}
use secretmediabot.Base.Table.{find_where}
use secretmediabot.Domain.Status.{
  WhisperStatus, active, opening, opened, revoked, status_eq, published, publish_eq,
}
use secretmediabot.Domain.Events.{
  OpenEventOutcome, allowed, denied_wrong_user, denied_not_active, denied_expired, denied_revoked,
  denied_already_opened, denied_ambiguous, reserved,
}
use secretmediabot.Repository.Errors.{
  Error, conflict, invalid_input, unauthorized, not_active, already_opened, open_ambiguous,
}
use secretmediabot.Repository.Rows.{WhisperRow, OpenEventRow, Db}
use secretmediabot.Repository.Tx.{Tx, pure, raise, require, take, transaction, now_or, ◌>>=◌, ◌>>◌}
use secretmediabot.Repository.Mapping.{Env, load_whisper_projection, to_domain}
use secretmediabot.Repository.Statements.{update_whisper, insert_event, lift}
use secretmediabot.Repository.Opening.Params.{ReserveOpenParams, OpenReservation}
use secretmediabot.Repository.Opening.Audit.{
  record_denied_open, has_reserved_open_event, reactivate_row, opening_row, always,
  expire_locked_whisper,
}
use secretmediabot.Repository.Opening.Content.{load_delivery_content}

-- What the transaction of `ReserveOpen` commits: a reservation, or a denial with its error.
pub data Verdict : Type 0 where
  granted : OpenReservation → Verdict
  denied : Error → Verdict

unfoldable pub deny : Env → WhisperRow → ReserveOpenParams → Error → OpenEventOutcome → Tx Verdict
unfolding record_denied_open
deny env w p e outcome = do record_denied_open env w.id p outcome; pure (denied e)

unfoldable pub reserved_event : Uuid → ReserveOpenParams → Time → OpenEventRow
reserved_event whisper p now = record {
  id = 0;
  whisper_id = whisper;
  telegram_user_id = p.telegram_user_id;
  callback_query_id = some p.callback_query_id;
  outcome = allowed;
  allowed = true;
  denial_reason = none;
  delivery_state = reserved;
  telegram_message_id = none;
  delivery_error = none;
  created_at = now;
  completed_at = none;
}

unfoldable pub is_active_row : WhisperRow → Bool
is_active_row w = w.status == active

-- `if whisper.OneTime { ... }`: the opening lease is taken by an active row.
unfoldable pub take_opening_lease : WhisperRow → ReserveOpenParams → Time → Tx (Unit {0})
unfolding is_active_row
take_opening_lease w p now =
    if w.one_time
    then (do hit ← update_whisper w.id is_active_row (opening_row p now); require hit conflict)
    else pure tt

-- The event of the reservation, and what the recipient is to see.
unfoldable pub reserve_event : Env → WhisperRow → ReserveOpenParams → Time → Tx Verdict
unfolding reserved_event
reserve_event env w p now = do
  event ← insert_event (reserved_event w.id p now)
  row ← load_whisper_projection w.id
  whisper ← lift (to_domain env p.open_token_hash row)
  content ← load_delivery_content w
  pure (granted (record { whisper = whisper; event_id = event; content = content }))

-- From `if whisper.PublishState != published` to the end of the transaction.
unfoldable pub grant : Env → WhisperRow → ReserveOpenParams → Time → Tx Verdict
unfolding deny take_opening_lease reserve_event
grant env w p now =
    if not (w.publish_state == published)
    then deny env w p not_active denied_not_active
    else do take_opening_lease w p now; reserve_event env w p now

-- `whisper.OpeningLeaseUntil == nil || whisper.OpeningLeaseUntil.After(now)`
abbrev pub lease_runs : Option Time → Time → Bool
lease_runs none now = true
lease_runs (some lease) now = after lease now

-- `case domain.WhisperOpening`
unfoldable pub reserve_opening : Env → WhisperRow → ReserveOpenParams → Time → Tx Verdict
unfolding deny grant
reserve_opening env w p now db =
    if lease_runs w.opening_lease_until now
    then deny env w p not_active denied_not_active db
    else if w.one_time && has_reserved_open_event w.id db
    then deny env w p open_ambiguous denied_ambiguous db
    else (do
      _ ← update_whisper w.id always (reactivate_row now)
      grant env (reactivate_row (w.updated_at) w) p now)
        db

-- The `switch` on the status.
unfoldable pub reserve_status :
    Env → WhisperStatus → WhisperRow → ReserveOpenParams → Time → Tx Verdict
unfolding deny grant reserve_opening
reserve_status env revoked w p now = deny env w p not_active denied_revoked
reserve_status env opened w p now = deny env w p already_opened denied_already_opened
reserve_status env opening w p now = reserve_opening env w p now
reserve_status env active w p now = grant env w p now
reserve_status env _ w p now = deny env w p not_active denied_not_active

-- The guards on the locked row.
unfoldable pub reserve_found : Env → WhisperRow → ReserveOpenParams → Time → Tx Verdict
unfolding deny expire_locked_whisper reserve_status
reserve_found env w p now =
    if not (w.recipient_id == p.telegram_user_id)
    then deny env w p unauthorized denied_wrong_user
    else if not (after w.expires_at now)
    then (do
      if w.status == active || w.status == opening then expire_locked_whisper w.id now else pure tt
      deny env w p Error.expired denied_expired)
    else reserve_status env w.status w p now

-- The row of the token, locked.
unfoldable pub by_token : ReserveOpenParams → Db → Option WhisperRow
by_token p db = find_where (λ r. r.open_token_hash == p.open_token_hash) db.whispers

-- The transaction of `ReserveOpen`.
unfoldable pub reserve_body : Env → ReserveOpenParams → Time → Tx Verdict
unfolding reserve_found by_token
reserve_body env p now = do w ← take (by_token p); reserve_found env w p now

unfoldable pub verdict_result : Verdict → Tx OpenReservation
verdict_result (granted r) = pure r
verdict_result (denied e) = raise e

-- The guard of `ReserveOpen`.
unfoldable pub is_bad_reservation : ReserveOpenParams → Time → Bool
is_bad_reservation p now =
    not (length p.open_token_hash == sha256_size)
    || not (is_positive p.telegram_user_id)
    || p.callback_query_id == ""
    || not (after p.lease_until now)

-- `Store.ReserveOpen`: a denial is committed with its audit row, an error is rolled back.
unfoldable pub reserve_open : Env → ReserveOpenParams → Tx OpenReservation
unfolding reserve_body verdict_result is_bad_reservation
reserve_open env p =
    let now = now_or env.clock p.now in
    if is_bad_reservation p now
    then raise invalid_input
    else do verdict ← transaction (reserve_body env p now); verdict_result verdict
