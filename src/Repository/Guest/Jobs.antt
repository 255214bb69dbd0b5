-- ===== src/Repository/Guest/Jobs.antt =====
-- internal/repository/guest.go: the jobs that delete delivered secrets from private chats, and two lookups.
pub mod Deleted
use secretmediabot.Base.{
  ℕ, suc, ℤ, Bool, true, false, ◌&&◌, ◌||◌, not, Option, none, some, List, [], ◌∷◌, Uuid, Time,
  Text, ◌==◌, nat_eq, int_eq, string_eq, if◌then◌else◌, after, is_zero_time, leb, ltb, is_none,
  is_positive, nil_uuid,
}
use secretmediabot.Base.Table.{find, find_where, modify, matches}
use secretmediabot.Base.Select.{select, latest}
use secretmediabot.Domain.Content.{MediaType}
use secretmediabot.Repository.Errors.{ok, err, invalid_input, not_found, conflict, lease_lost}
use secretmediabot.Repository.Rows.{
  awaiting_secret, GuestRequestRow, GuestPayloadRow, GuestPrivateDeleteJobRow, Db,
}
use secretmediabot.Repository.Tx.{Tx, pure, raise, require, take, now_or, ◌>>=◌, ◌>>◌}
use secretmediabot.Repository.Mapping.{Env, StoredEncryptedPayload}
use secretmediabot.Repository.Statements.{safe_error_code}
use secretmediabot.Repository.Cleanup.{is_past}
use secretmediabot.Repository.Guest.{request_key, find_request}
use secretmediabot.Repository.Guest.Values.{
  GuestRequest, guest_state_eq, to_guest_request, guest_to_stored,
}
use secretmediabot.Repository.Guest.Claim.{guest_payload_of}

pub record ClaimGuestDeleteParams : Type 0 where
  pub now : Time
  pub lease_until : Time

pub record FinishGuestDeleteParams : Type 0 where
  pub job_id : ℕ
  pub expected_lease_until : Time
  pub now : Time
  pub next_attempt_at : Time
  pub error_code : Text

pub record GuestPrivateDeleteJob : Type 0 where
  pub id : ℕ
  pub request_id : Option Uuid
  pub chat_id : ℤ
  pub message_id : ℤ
  pub delete_after : Time
  pub attempt_count : ℕ
  pub lease_until : Time
  pub next_attempt_at : Time

abbrev time_value : Option Time → Time
time_value none = 0
time_value (some t) = t

-- `guestPrivateDeleteJobRow.toGuestDeleteJob`
abbrev pub to_guest_delete_job : GuestPrivateDeleteJobRow → GuestPrivateDeleteJob
to_guest_delete_job r = record {
  id = r.id;
  request_id = r.request_id;
  chat_id = r.chat_id;
  message_id = r.message_id;
  delete_after = r.delete_after;
  attempt_count = r.attempt_count;
  lease_until = time_value r.lease_until;
  next_attempt_at = r.next_attempt_at;
}

abbrev pub guest_job_key : GuestPrivateDeleteJobRow → ℕ
guest_job_key j = j.id

-- `UPDATE guest_private_delete_jobs ... WHERE id = ? AND p`, with whether it changed a row.
abbrev pub update_guest_job :
    ℕ
    → (GuestPrivateDeleteJobRow → Bool)
    → (GuestPrivateDeleteJobRow → GuestPrivateDeleteJobRow)
    → Tx Bool
update_guest_job id p f db = (
  ok (matches guest_job_key id p db.guest_jobs),
  record db { guest_jobs = modify guest_job_key id p f db.guest_jobs },
)

abbrev pub is_due_guest : (ℕ → Bool) → Time → GuestPrivateDeleteJobRow → Bool
is_due_guest locked now j =
    is_none j.deleted_at
    && leb j.next_attempt_at now
    && (is_none j.lease_until || is_past j.lease_until now)
    && not (locked j.id)

abbrev pub leased_guest_job : Time → Time → GuestPrivateDeleteJobRow → GuestPrivateDeleteJobRow
leased_guest_job lease now j = record j {
  lease_until = some lease;
  attempt_count = suc j.attempt_count;
  updated_at = now;
}

abbrev pub any_guest_job : GuestPrivateDeleteJobRow → Bool
any_guest_job j = true

unfoldable pub take_guest_job :
    Time → Time → List GuestPrivateDeleteJobRow → Tx GuestPrivateDeleteJob
take_guest_job lease now [] = raise not_found
take_guest_job lease now (j ∷ js) = do
  _ ← update_guest_job j.id any_guest_job (leased_guest_job lease now)
  pure (to_guest_delete_job (leased_guest_job lease now j))

abbrev pub due_guest_jobs : (ℕ → Bool) → Time → Db → List GuestPrivateDeleteJobRow
due_guest_jobs locked now db =
    select (is_due_guest locked now) (λ (j : GuestPrivateDeleteJobRow). j.next_attempt_at)
      guest_job_key 1 db.guest_jobs

-- `Store.ClaimDueGuestDelete`
unfoldable pub claim_due_guest_delete :
    Env → (ℕ → Bool) → ClaimGuestDeleteParams → Tx GuestPrivateDeleteJob
unfolding take_guest_job
claim_due_guest_delete env locked p =
    let now = now_or env.clock p.now in
    if not (after p.lease_until now) then raise invalid_input else λ db.
    take_guest_job p.lease_until now (due_guest_jobs locked now db) db

abbrev pub holds_guest_job : Time → GuestPrivateDeleteJobRow → Bool
holds_guest_job expected j =
    is_none j.deleted_at && elim j.lease_until [ none ↦ false | some lease ↦ lease == expected ]

abbrev pub deleted_guest_job :
    FinishGuestDeleteParams → Time → GuestPrivateDeleteJobRow → GuestPrivateDeleteJobRow
deleted_guest_job p now j = record j {
  deleted_at = some now;
  lease_until = none;
  last_error = safe_error_code p.error_code;
  updated_at = now;
}

abbrev pub retried_guest_job :
    FinishGuestDeleteParams → Time → GuestPrivateDeleteJobRow → GuestPrivateDeleteJobRow
retried_guest_job p now j = record j {
  lease_until = none;
  next_attempt_at = p.next_attempt_at;
  last_error = safe_error_code p.error_code;
  updated_at = now;
}

-- `Store.MarkGuestDeleted`
unfoldable pub mark_guest_deleted : Env → FinishGuestDeleteParams → Tx (Unit {0})
mark_guest_deleted env p = do
  hit ←
      update_guest_job p.job_id (holds_guest_job p.expected_lease_until)
        (deleted_guest_job p (now_or env.clock p.now))
  require hit lease_lost

-- `Store.RetryGuestDelete`
unfoldable pub retry_guest_delete : Env → FinishGuestDeleteParams → Tx (Unit {0})
retry_guest_delete env p =
    let now = now_or env.clock p.now in
    if p.job_id == 0 || is_zero_time p.expected_lease_until || not (after p.next_attempt_at now)
    then raise invalid_input
    else (do
      hit ←
          update_guest_job p.job_id (holds_guest_job p.expected_lease_until)
            (retried_guest_job p now)
      require hit lease_lost)

-- `Store.FindAwaitingGuestSecret`
unfoldable pub find_awaiting_guest_secret : Env → ℤ → Time → Tx GuestRequest
unfolding latest
find_awaiting_guest_secret env sender value =
    if not (is_positive sender) then raise invalid_input else (do
      row ← take (λ db.
          latest
            (λ (r : GuestRequestRow).
              r.sender_id == sender
              && r.state == awaiting_secret
              && ltb (now_or env.clock value) r.expires_at)
            (λ (r : GuestRequestRow). r.created_at) request_key db.guest_requests)
      pure (to_guest_request row))

pub record GuestMediaBlob : Type 0 where
  pub request_id : Uuid
  pub media_type : MediaType
  pub stored : StoredEncryptedPayload

unfoldable pub media_of_request : Uuid → Option MediaType → Tx GuestMediaBlob
media_of_request id none = raise conflict
media_of_request id (some kind) = do
  row ← take (guest_payload_of id "media")
  pure (record { request_id = id; media_type = kind; stored = guest_to_stored row })

-- `Store.FindGuestMediaPayload`
unfoldable pub find_guest_media_payload : Uuid → Tx GuestMediaBlob
unfolding media_of_request
find_guest_media_payload id =
    if id == nil_uuid
    then raise invalid_input
    else (do request ← take (find_request id); media_of_request id request.media_type)
