-- ===== src/Repository/Opening/Audit.antt =====
-- internal/repository/opening.go: the audit rows of denied opens, and the rows that an open writes.
use secretmediabot.Base.{
  ℕ, ◌+◌, ℤ, Bool, true, false, ◌&&◌, not, none, some, Uuid, Time, count, ◌==◌, nat_eq, int_eq,
  string_eq, list_eq, if◌then◌else◌, ltb,
}
use secretmediabot.Domain.Status.{active, opening, expired, status_eq, publish_eq}
use secretmediabot.Domain.Events.{OpenEventOutcome, denied_ambiguous, not_attempted, is_reserved}
use secretmediabot.Repository.Errors.{ok, err, database}
use secretmediabot.Repository.Rows.{WhisperRow, OpenEventRow, Db}
use secretmediabot.Repository.Tx.{Tx, pure, now_or, ◌>>=◌}
use secretmediabot.Repository.Mapping.{Env}
use secretmediabot.Repository.Statements.{update_whisper, insert_event}
use secretmediabot.Repository.Opening.Params.{ReserveOpenParams}

-- Nanoseconds of `time.Minute`.
abbrev pub minute : ℕ
minute = 60_000_000_000

-- `recordDeniedOpen`: one denial row for a whisper and a user in a minute.
unfoldable pub is_recent : Uuid → ℤ → Time → OpenEventRow → Bool
is_recent whisper user now e =
    e.whisper_id == whisper && e.telegram_user_id == user && ltb now (e.created_at + minute)

unfoldable pub denied_event : Uuid → ReserveOpenParams → OpenEventOutcome → Time → OpenEventRow
denied_event whisper p outcome now = record {
  id = 0;
  whisper_id = whisper;
  telegram_user_id = p.telegram_user_id;
  callback_query_id = some p.callback_query_id;
  outcome = outcome;
  allowed = false;
  denial_reason = some outcome;
  delivery_state = not_attempted;
  telegram_message_id = none;
  delivery_error = none;
  created_at = now;
  completed_at = none;
}

-- The CHECK on `whisper_open_events.outcome` of migrations/00001_init.sql.
abbrev pub is_stored_outcome : OpenEventOutcome → Bool
is_stored_outcome denied_ambiguous = false
is_stored_outcome (OpenEventOutcome.other s) = false
is_stored_outcome _ = true

unfoldable pub record_denied_open :
    Env → Uuid → ReserveOpenParams → OpenEventOutcome → Tx (Unit {0})
record_denied_open env whisper p outcome db =
    let now = now_or env.clock p.now in
    if ltb 0 (count (is_recent whisper p.telegram_user_id now) db.events)
    then (ok tt, db)
    else if not (is_stored_outcome outcome)
    then (err database, db)
    else (insert_event (denied_event whisper p outcome now) >>= λ _. pure tt) db

-- `hasReservedOpenEvent`
unfoldable pub has_reserved_open_event : Uuid → Db → Bool
has_reserved_open_event whisper db =
    ltb 0 (count (λ e. e.whisper_id == whisper && is_reserved e.delivery_state) db.events)

-- The row of `expireLockedWhisper`, and of a lapsed opening that is taken back.
abbrev pub expire_row : Time → WhisperRow → WhisperRow
expire_row now w = record w {
  status = expired;
  opening_callback_query_id = none;
  opening_reserved_at = none;
  opening_lease_until = none;
  updated_at = now;
}

abbrev pub reactivate_row : Time → WhisperRow → WhisperRow
reactivate_row now w = record w {
  status = active;
  opening_callback_query_id = none;
  opening_reserved_at = none;
  opening_lease_until = none;
  updated_at = now;
}

abbrev pub opening_row : ReserveOpenParams → Time → WhisperRow → WhisperRow
opening_row p now w = record w {
  status = opening;
  opening_callback_query_id = some p.callback_query_id;
  opening_reserved_at = some now;
  opening_lease_until = some p.lease_until;
  updated_at = now;
}

abbrev pub always : WhisperRow → Bool
always w = true

unfoldable pub expire_locked_whisper : Uuid → Time → Tx (Unit {0})
expire_locked_whisper id now = do _ ← update_whisper id always (expire_row now); pure tt
