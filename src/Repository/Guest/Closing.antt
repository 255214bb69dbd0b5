-- ===== src/Repository/Guest/Closing.antt =====
-- internal/repository/guest.go: the end of an opening, and cancellation.
use secretmediabot.Base.{
  ℕ, ℤ, Bool, false, ◌&&◌, ◌||◌, not, Option, none, some, [], ◌∷◌, ◌++◌, Time, ◌==◌, nat_eq, int_eq,
  list_eq, string_eq, if◌then◌else◌, ltb, after, is_zero_time, is_positive, is_some, nil_uuid, suc,
  count, map,
}
use secretmediabot.Base.Table.{find_where}
use secretmediabot.Repository.Errors.{ok, err, invalid_input, not_found, conflict, lease_lost}
use secretmediabot.Repository.Rows.{
  awaiting_secret, ingesting_secret, ready, opening, opened, cancelled, GuestRequestRow,
  GuestPrivateDeleteJobRow,
}
use secretmediabot.Repository.Tx.{Tx, pure, raise, require, take, transaction, now_or, ◌>>=◌, ◌>>◌}
use secretmediabot.Repository.Mapping.{Env}
use secretmediabot.Repository.Guest.Params.{
  GuestCompleteOpenParams, GuestFailOpenParams, CancelGuestParams, CancelGuestRequestByIdParams,
}
use secretmediabot.Repository.Guest.Values.{guest_state_eq}
use secretmediabot.Repository.Guest.{find_request, update_request}

abbrev pub holds_opening : Time → GuestRequestRow → Bool
holds_opening expected r =
    r.state == opening
    && elim r.opening_lease_until [ none ↦ false | some lease ↦ lease == expected ]

abbrev pub opened_request : GuestCompleteOpenParams → Time → GuestRequestRow → GuestRequestRow
opened_request p now r = record r {
  state = opened;
  opening_lease_until = none;
  opened_at = some now;
  delivery_message_id = some p.message_id;
  updated_at = now;
}

abbrev pub guest_job : GuestCompleteOpenParams → Time → ℤ → GuestPrivateDeleteJobRow
guest_job p now chat = record {
  id = 0;
  request_id = some p.request_id;
  chat_id = chat;
  message_id = p.message_id;
  delete_after = p.delete_at;
  next_attempt_at = p.delete_at;
  attempt_count = 0;
  lease_until = none;
  last_error = [];
  deleted_at = none;
  created_at = now;
  updated_at = now;
}

-- `UNIQUE (chat_id, message_id)`
unfoldable pub insert_guest_job : GuestPrivateDeleteJobRow → Tx (Unit {0})
insert_guest_job j db =
    if is_some (
      find_where
        (λ (x : GuestPrivateDeleteJobRow). x.chat_id == j.chat_id && x.message_id == j.message_id)
        db.guest_jobs)
    then (err conflict, db)
    else (
      ok tt,
      record db {
        guest_jobs = db.guest_jobs ++ record j { id = db.next_guest_job_id } ∷ [];
        next_guest_job_id = suc db.next_guest_job_id;
      },
    )

unfoldable pub queue_guest_job : GuestCompleteOpenParams → Time → Option ℤ → Tx (Unit {0})
unfolding insert_guest_job
queue_guest_job p now none = raise conflict
queue_guest_job p now (some chat) = insert_guest_job (guest_job p now chat)

unfoldable pub queue_guest_deletion : GuestCompleteOpenParams → Time → Tx (Unit {0})
unfolding queue_guest_job
queue_guest_deletion p now = do
  r ← take (find_request p.request_id)
  queue_guest_job p now r.target_user_id

unfoldable pub complete_guest_body : GuestCompleteOpenParams → Time → Tx (Unit {0})
unfolding queue_guest_deletion
complete_guest_body p now = do
  hit ← update_request p.request_id (holds_opening p.expected_lease_until) (opened_request p now)
  require hit lease_lost
  if after p.delete_at now then queue_guest_deletion p now else pure tt

-- `Store.CompleteGuestOpen`
unfoldable pub complete_guest_open : Env → GuestCompleteOpenParams → Tx (Unit {0})
unfolding complete_guest_body
complete_guest_open env p =
    if p.request_id == nil_uuid
      || is_zero_time p.expected_lease_until
      || not (is_positive p.message_id)
    then raise invalid_input
    else transaction (complete_guest_body p (now_or env.clock p.now))

abbrev pub returned_request : Time → GuestRequestRow → GuestRequestRow
returned_request now r = record r {
  state = ready;
  opening_reserved_at = none;
  opening_lease_until = none;
  updated_at = now;
}

-- `Store.FailGuestOpen`
unfoldable pub fail_guest_open : Env → GuestFailOpenParams → Tx (Unit {0})
fail_guest_open env p = do
  hit ←
      update_request p.request_id (holds_opening p.expected_lease_until)
        (returned_request (now_or env.clock p.now))
  require hit lease_lost

abbrev pub is_guest_active_of : ℤ → Time → GuestRequestRow → Bool
is_guest_active_of sender now r =
    r.sender_id == sender
    && (r.state == awaiting_secret || r.state == ingesting_secret || r.state == ready)
    && ltb now r.expires_at

abbrev pub cancelled_request : Time → GuestRequestRow → GuestRequestRow
cancelled_request now r = record r {
  state = cancelled;
  ingest_lease_until = none;
  opening_lease_until = none;
  updated_at = now;
}

-- `UPDATE ... WHERE p` of any number of rows.
abbrev pub cancel_if : (GuestRequestRow → Bool) → Time → GuestRequestRow → GuestRequestRow
cancel_if p now r = if p r then cancelled_request now r else r

-- `Store.CancelGuestRequest`
unfoldable pub cancel_guest_request : Env → CancelGuestParams → Tx ℕ
unfolding count
cancel_guest_request env p db =
    let now = now_or env.clock p.now in
    let test = is_guest_active_of p.sender_id now in
    let n = count test db.guest_requests in
    if not (is_positive p.sender_id)
    then (err invalid_input, db)
    else if n == 0
    then (err not_found, db)
    else (ok n, record db { guest_requests = map (cancel_if test now) db.guest_requests })

-- `Store.CancelGuestRequestByID`
unfoldable pub cancel_guest_request_by_id : Env → CancelGuestRequestByIdParams → Tx (Unit {0})
cancel_guest_request_by_id env p =
    if p.request_id == nil_uuid || not (is_positive p.sender_id) then raise invalid_input else (do
      hit ←
          update_request p.request_id
            (λ r. r.sender_id == p.sender_id && (r.state == awaiting_secret || r.state == ready))
            (cancelled_request (now_or env.clock p.now))
      require hit not_found)
