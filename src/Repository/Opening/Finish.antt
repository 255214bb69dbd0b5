-- ===== src/Repository/Opening/Finish.antt =====
-- internal/repository/opening.go: `CompleteOpen` and `FailOpen`.
use secretmediabot.Base.{
  ℕ, ℤ, is_positive, Bool, false, ◌&&◌, ◌||◌, not, Option, none, some, String, Uuid, Time, after,
  is_zero_time, ◌==◌, nat_eq, int_eq, string_eq, if◌then◌else◌, nil_uuid, is_some,
}
use secretmediabot.Base.Table.{find_where, find}
use secretmediabot.Domain.Status.{WhisperStatus, active, opening, opened, expired, status_eq}
use secretmediabot.Domain.Events.{
  is_allowed, delivered, failed, delivery_failed, is_reserved, is_delivered,
}
use secretmediabot.Repository.Errors.{conflict, invalid_input, lease_lost}
use secretmediabot.Repository.Rows.{WhisperRow, OpenEventRow, EphemeralDeleteJobRow, Db}
use secretmediabot.Repository.Tx.{Tx, pure, raise, require, take, transaction, now_or, ◌>>=◌, ◌>>◌}
use secretmediabot.Repository.Mapping.{Env, whisper_key}
use secretmediabot.Repository.Statements.{
  update_whisper, update_event, insert_job, is_same_message, safe_error_code,
}
use secretmediabot.Repository.Opening.Params.{CompleteOpenParams, FailOpenParams}
use secretmediabot.Repository.Opening.Audit.{always}

-- `*p == value` of a pointer that may be nil.
abbrev pub is_callback : Option String → String → Bool
is_callback none c = false
is_callback (some d) c = d == c

unfoldable pub find_event : ℕ → Uuid → Db → Option OpenEventRow
find_event id whisper db = find_where (λ e. e.id == id && e.whisper_id == whisper) db.events

abbrev pub find_whisper : Uuid → Db → Option WhisperRow
find_whisper id db = find whisper_key id db.whispers

abbrev pub coalesce : Option Time → Time → Option Time
coalesce none now = some now
coalesce (some t) now = some t

-- `updates` of `CompleteOpen`: with the fields of a one-time whisper, and without.
abbrev pub opened_row : Time → WhisperRow → WhisperRow
opened_row now w = record w {
  opened_at = coalesce w.opened_at now;
  updated_at = now;
  status = opened;
  opening_callback_query_id = none;
  opening_reserved_at = none;
  opening_lease_until = none;
}

abbrev pub seen_row : Time → WhisperRow → WhisperRow
seen_row now w = record w { opened_at = coalesce w.opened_at now; updated_at = now }

abbrev pub delivered_event : CompleteOpenParams → Time → OpenEventRow → OpenEventRow
delivered_event p now e = record e {
  delivery_state = delivered;
  telegram_message_id = p.telegram_message_id;
  completed_at = some now;
}

abbrev pub is_reserved_event : OpenEventRow → Bool
is_reserved_event e = is_reserved e.delivery_state

abbrev pub delete_job : WhisperRow → ℤ → Time → Time → EphemeralDeleteJobRow
delete_job w message delete_at now = record {
  id = 0;
  chat_id = w.source_chat_id;
  recipient_id = w.recipient_id;
  ephemeral_message_id = message;
  whisper_id = some w.id;
  delete_after = delete_at;
  next_attempt_at = delete_at;
  attempt_count = 0;
  lease_until = none;
  last_error = none;
  deleted_at = none;
  created_at = now;
  updated_at = now;
}

abbrev pub has_whisper : Uuid → Option Uuid → Bool
has_whisper id none = false
has_whisper id (some j) = j == id

-- The job of a delivery that was completed before, `ErrConflict` if there is none.
unfoldable pub check_repeated : WhisperRow → ℤ → Tx (Unit {0})
unfolding is_same_message
check_repeated w message db =
    require
      (is_some (
        find_where
          (λ j.
            has_whisper w.id j.whisper_id
            && is_same_message w.source_chat_id w.recipient_id message j)
          db.jobs))
      conflict db

-- The update of the whisper.
unfoldable pub mark_opened : WhisperRow → CompleteOpenParams → Time → Tx Bool
mark_opened w p now =
    if w.one_time
    then (do
      require (w.status == opening && is_callback w.opening_callback_query_id p.callback_query_id)
          lease_lost
      update_whisper w.id always (opened_row now))
    else update_whisper w.id always (seen_row now)

abbrev pub queue_deletion : WhisperRow → CompleteOpenParams → ℤ → Time → Tx (Unit {0})
queue_deletion w p message now =
    if after p.delete_at now then insert_job (delete_job w message p.delete_at now) else pure tt

-- The update of the event, and the job that deletes the message.
abbrev pub settle_event : OpenEventRow → WhisperRow → CompleteOpenParams → ℤ → Time → Tx (Unit {0})
settle_event e w p message now = do
  hit ← update_event e.id is_reserved_event (delivered_event p now)
  require hit conflict
  queue_deletion w p message now

abbrev pub mark_and_settle :
    OpenEventRow → WhisperRow → CompleteOpenParams → ℤ → Time → Tx (Unit {0})
mark_and_settle e w p message now = do _ ← mark_opened w p now; settle_event e w p message now

unfoldable pub finish_reserved :
    OpenEventRow → WhisperRow → CompleteOpenParams → ℤ → Time → Tx (Unit {0})
finish_reserved e w p message now = do
  require (is_reserved e.delivery_state) conflict
  mark_and_settle e w p message now

abbrev pub complete_whisper :
    OpenEventRow → CompleteOpenParams → ℤ → Time → WhisperRow → Tx (Unit {0})
complete_whisper e p message now w =
    if is_delivered e.delivery_state
    then check_repeated w message
    else finish_reserved e w p message now

abbrev pub is_settled_by : CompleteOpenParams → OpenEventRow → Bool
is_settled_by p e =
    is_callback e.callback_query_id p.callback_query_id && e.allowed && is_allowed e.outcome

abbrev pub complete_event : CompleteOpenParams → ℤ → Time → OpenEventRow → Tx (Unit {0})
complete_event p message now e = do
  require (is_settled_by p e) conflict
  w ← take (find_whisper p.whisper_id)
  complete_whisper e p message now w

-- The transaction of `CompleteOpen`, for the ephemeral message `message`.
unfoldable pub complete_body : CompleteOpenParams → ℤ → Time → Tx (Unit {0})
complete_body p message now = do
  e ← take (find_event p.event_id p.whisper_id)
  complete_event p message now e

unfoldable pub complete_checked : CompleteOpenParams → Option ℤ → Time → Tx (Unit {0})
unfolding complete_body
complete_checked p none now = raise invalid_input
complete_checked p (some message) now =
    if p.whisper_id == nil_uuid
      || p.event_id == 0
      || p.callback_query_id == ""
      || not (is_positive message)
      || is_zero_time p.delete_at
    then raise invalid_input
    else transaction (complete_body p message now)

-- `Store.CompleteOpen`
unfoldable pub complete_open : Env → CompleteOpenParams → Tx (Unit {0})
unfolding complete_checked
complete_open env p = complete_checked p p.ephemeral_message_id (now_or env.clock p.now)

abbrev pub failed_event : FailOpenParams → Time → OpenEventRow → OpenEventRow
failed_event p now e = record e {
  outcome = delivery_failed;
  allowed = false;
  delivery_state = failed;
  delivery_error = some (safe_error_code p.error_code);
  completed_at = some now;
}

-- The row after a failed delivery: it can be opened again until it expires.
abbrev pub released_row : WhisperStatus → Time → WhisperRow → WhisperRow
released_row status now w = record w {
  status = status;
  opening_callback_query_id = none;
  opening_reserved_at = none;
  opening_lease_until = none;
  updated_at = now;
}

unfoldable pub release_whisper : WhisperRow → FailOpenParams → Time → Tx (Unit {0})
release_whisper w p now =
    if w.one_time
      && w.status == opening
      && is_callback w.opening_callback_query_id p.callback_query_id
    then (do
      let status = if after w.expires_at now then active else expired
      _ ← update_whisper w.id always (released_row status now)
      pure tt)
    else pure tt

abbrev pub fail_whisper : FailOpenParams → Time → Tx (Unit {0})
fail_whisper p now = do w ← take (find_whisper p.whisper_id); release_whisper w p now

abbrev pub is_failed_by : FailOpenParams → OpenEventRow → Bool
is_failed_by p e =
    is_callback e.callback_query_id p.callback_query_id && is_reserved e.delivery_state

abbrev pub settle_failure : FailOpenParams → Time → OpenEventRow → Tx (Unit {0})
settle_failure p now e = do
  hit ← update_event e.id is_reserved_event (failed_event p now)
  require hit conflict
  fail_whisper p now

abbrev pub fail_event : FailOpenParams → Time → OpenEventRow → Tx (Unit {0})
fail_event p now e = do require (is_failed_by p e) conflict; settle_failure p now e

-- The transaction of `FailOpen`.
unfoldable pub fail_body : FailOpenParams → Time → Tx (Unit {0})
fail_body p now = do e ← take (find_event p.event_id p.whisper_id); fail_event p now e

-- `Store.FailOpen`
unfoldable pub fail_open : Env → FailOpenParams → Tx (Unit {0})
unfolding fail_body
fail_open env p =
    if p.whisper_id == nil_uuid || p.event_id == 0 || p.callback_query_id == ""
    then raise invalid_input
    else transaction (fail_body p (now_or env.clock p.now))
