-- ===== src/Repository/Guest.antt =====
-- internal/repository/guest.go: requests of guests, from their secret to its delivery.
pub mod Params
pub mod Values
pub mod Closing
pub mod Claim
pub mod Create
pub mod Jobs
pub mod Granted
pub mod Moves
pub mod Traced
pub mod Path
use secretmediabot.Base.{
  ℕ, ℤ, Bool, true, false, ◌&&◌, ◌||◌, not, Option, none, some, List, [], ◌∷◌, ◌++◌, String, Uuid,
  Time, Bytes, Text, ◌==◌, nat_eq, int_eq, list_eq, string_eq, if◌then◌else◌, ltb, leb, after,
  is_zero_time, is_positive, is_some, is_none, nil_uuid, length, sha256_size, trim_space, suc,
  count, map,
}
use secretmediabot.Base.Table.{find, find_where, modify, matches}
use secretmediabot.Domain.Content.{PayloadKind, MediaType}
use secretmediabot.Domain.User.{User, normalize_username}
use secretmediabot.Repository.Errors.{
  Result, ok, err, invalid_input, not_found, unauthorized, conflict, lease_lost,
}
use secretmediabot.Repository.Rows.{
  GuestState, awaiting_secret, ingesting_secret, ready, opening, opened, cancelled, GuestRequestRow,
  GuestPayloadRow, GuestPrivateDeleteJobRow, Db,
}
use secretmediabot.Repository.Tx.{Tx, pure, raise, require, take, transaction, now_or, ◌>>=◌, ◌>>◌}
use secretmediabot.Repository.Mapping.{Env}
use secretmediabot.Repository.Cleanup.{is_past}
use secretmediabot.Repository.Guest.Params.{
  GuestClaimIngestParams, GuestReleaseIngestParams, GuestFinalizeParams, GuestCompleteOpenParams,
  GuestFailOpenParams, CancelGuestParams, CancelGuestRequestByIdParams,
}
use secretmediabot.Repository.Guest.Values.{
  GuestRequest, GuestPayload, guest_state_eq, to_guest_request, guest_payload_row_from_domain,
  is_bad_payload,
}

abbrev pub request_key : GuestRequestRow → Uuid
request_key r = r.id

abbrev pub find_request : Uuid → Db → Option GuestRequestRow
find_request id db = find request_key id db.guest_requests

-- `token_hash BYTEA NOT NULL UNIQUE`: a hash names one row at most.
unfoldable pub request_by_token : Bytes → Db → Option GuestRequestRow
request_by_token hash db =
    find_where (λ (r : GuestRequestRow). r.token_hash == hash) db.guest_requests

-- `UPDATE guest_secret_requests ... WHERE id = ? AND p`, with whether it changed a row.
abbrev pub update_request :
    Uuid → (GuestRequestRow → Bool) → (GuestRequestRow → GuestRequestRow) → Tx Bool
update_request id p f db = (
  ok (matches request_key id p db.guest_requests),
  record db { guest_requests = modify request_key id p f db.guest_requests },
)

abbrev pub any_request : GuestRequestRow → Bool
any_request r = true

-- `Store.FindGuestRequestByTokenHash`
unfoldable pub find_guest_request_by_token_hash : Bytes → Tx GuestRequest
unfolding request_by_token
find_guest_request_by_token_hash hash =
    if not (length hash == sha256_size)
    then raise invalid_input
    else (do row ← take (request_by_token hash); pure (to_guest_request row))

abbrev pub is_guest_ingestable : GuestClaimIngestParams → Time → GuestRequestRow → Bool
is_guest_ingestable p now r =
    r.sender_id == p.sender_id
    && ltb now r.expires_at
    && (r.state == awaiting_secret
        || (r.state == ingesting_secret && is_past r.ingest_lease_until now))

abbrev pub ingesting_request : Time → Time → GuestRequestRow → GuestRequestRow
ingesting_request now lease r = record r {
  state = ingesting_secret;
  ingest_started_at = some now;
  ingest_lease_until = some lease;
  updated_at = now;
}

unfoldable pub claim_guest_row :
    GuestClaimIngestParams → Time → Option GuestRequestRow → Tx GuestRequest
claim_guest_row p now none = raise not_found
claim_guest_row p now (some r) = do
  hit ← update_request r.id (is_guest_ingestable p now) (ingesting_request now p.lease_until)
  require hit not_found
  pure (to_guest_request (ingesting_request now p.lease_until r))

-- `Store.ClaimGuestIngest`
unfoldable pub claim_guest_ingest : Env → GuestClaimIngestParams → Tx GuestRequest
unfolding claim_guest_row request_by_token
claim_guest_ingest env p =
    let now = now_or env.clock p.now in
    if not (length p.token_hash == sha256_size)
      || not (is_positive p.sender_id)
      || not (after p.lease_until now)
    then raise invalid_input
    else λ db. claim_guest_row p now (request_by_token p.token_hash db) db

abbrev pub holds_guest_ingest : ℤ → Time → GuestRequestRow → Bool
holds_guest_ingest sender expected r =
    r.sender_id == sender
    && r.state == ingesting_secret
    && elim r.ingest_lease_until [ none ↦ false | some lease ↦ lease == expected ]

abbrev pub awaiting_request : Time → GuestRequestRow → GuestRequestRow
awaiting_request now r = record r {
  state = awaiting_secret;
  ingest_lease_until = none;
  updated_at = now;
}

-- `Store.ReleaseGuestIngest`
unfoldable pub release_guest_ingest : Env → GuestReleaseIngestParams → Tx (Unit {0})
release_guest_ingest env p = do
  hit ←
      update_request p.request_id (holds_guest_ingest p.sender_id p.expected_lease_until)
        (awaiting_request (now_or env.clock p.now))
  require hit lease_lost

-- `UNIQUE (request_id, purpose)`, the primary key, and the reference to a request.
abbrev pub payload_clashes : GuestPayloadRow → Db → Bool
payload_clashes r db =
    is_some (
      find_where
        (λ (x : GuestPayloadRow).
          x.id == r.id || (x.request_id == r.request_id && x.purpose == r.purpose))
        db.guest_payloads)
    || is_none (find_request r.request_id db)

unfoldable pub insert_guest_payload : GuestPayloadRow → Tx (Unit {0})
insert_guest_payload r db =
    if payload_clashes r db
    then (err conflict, db)
    else (ok tt, record db { guest_payloads = db.guest_payloads ++ r ∷ [] })

unfoldable pub put_guest_payload : Env → Time → Option GuestPayload → Tx (Unit {0})
unfolding insert_guest_payload is_bad_payload
put_guest_payload env now none = pure tt
put_guest_payload env now (some i) =
    if is_bad_payload now i
    then raise invalid_input
    else insert_guest_payload (guest_payload_row_from_domain env.clock i)

-- The payloads that a kind takes.
unfoldable pub is_bad_cardinality : GuestFinalizeParams → PayloadKind → Bool
is_bad_cardinality p PayloadKind.text = is_none p.text || is_some p.media || is_some p.caption
is_bad_cardinality p _ = is_none p.media || is_some p.text

unfoldable pub ready_request :
    GuestFinalizeParams → Time → PayloadKind → GuestRequestRow → GuestRequestRow
ready_request p now PayloadKind.media r = record r {
  state = ready;
  payload_kind = some PayloadKind.media;
  media_type = some p.media_type;
  telegram_file_id = some p.telegram_file_id;
  telegram_file_unique_id = some p.telegram_file_unique;
  telegram_content_type = some p.telegram_content;
  ingest_lease_until = none;
  secret_ready_at = some now;
  updated_at = now;
}
ready_request p now kind r = record r {
  state = ready;
  payload_kind = some kind;
  media_type = none;
  telegram_file_id = none;
  telegram_file_unique_id = none;
  telegram_content_type = none;
  ingest_lease_until = none;
  secret_ready_at = some now;
  updated_at = now;
}

abbrev pub holds_request : Time → GuestRequestRow → Bool
holds_request expected r =
    r.state == ingesting_secret
    && elim r.ingest_lease_until [ none ↦ false | some lease ↦ lease == expected ]

abbrev pub is_text_or_media : PayloadKind → Bool
is_text_or_media PayloadKind.text = true
is_text_or_media PayloadKind.media = true
is_text_or_media _ = false

unfoldable pub store_guest_payloads : Env → GuestFinalizeParams → Time → Tx (Unit {0})
unfolding put_guest_payload
store_guest_payloads env p now = do
  put_guest_payload env now p.text
  put_guest_payload env now p.media
  put_guest_payload env now p.caption

-- The last statement of `FinalizeGuest`, which does not count the rows that it changes.
unfoldable pub make_ready : GuestFinalizeParams → Time → Tx (Unit {0})
unfolding ready_request
make_ready p now = do
  _ ←
      update_request p.request_id (holds_request p.expected_lease_until)
        (ready_request p now p.kind)
  pure tt

unfoldable pub finalize_guest_found :
    Env → GuestFinalizeParams → Time → GuestRequestRow → Tx (Unit {0})
unfolding store_guest_payloads make_ready is_bad_cardinality
finalize_guest_found env p now r = do
  require
      (r.sender_id == p.sender_id
        && holds_request p.expected_lease_until r
        && after r.expires_at now)
      lease_lost
  require (not (is_bad_cardinality p p.kind)) invalid_input
  store_guest_payloads env p now
  make_ready p now

unfoldable pub finalize_guest_body : Env → GuestFinalizeParams → Time → Tx (Unit {0})
unfolding finalize_guest_found
finalize_guest_body env p now = do
  r ← take (find_request p.request_id)
  finalize_guest_found env p now r

-- `Store.FinalizeGuest`
unfoldable pub finalize_guest : Env → GuestFinalizeParams → Tx (Unit {0})
unfolding finalize_guest_body
finalize_guest env p =
    if p.request_id == nil_uuid
      || not (is_positive p.sender_id)
      || is_zero_time p.expected_lease_until
      || not (is_text_or_media p.kind)
    then raise invalid_input
    else transaction (finalize_guest_body env p (now_or env.clock p.now))
