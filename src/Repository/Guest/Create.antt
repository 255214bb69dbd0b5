-- ===== src/Repository/Guest/Create.antt =====
-- internal/repository/guest.go: `CreateGuestRequest` and `MarkGuestEnvelope`.
use secretmediabot.Base.{
  ℕ, ℤ, pos, negsuc, suc, Bool, true, false, ◌&&◌, ◌||◌, not, Option, none, some, [], ◌∷◌, ◌++◌,
  map, Time, Bytes, Text, ◌==◌, nat_eq, int_eq, list_eq, if◌then◌else◌, ltb, after, is_positive,
  is_zero, is_zero_time, is_some, is_none, nil_uuid, length, sha256_size, trim_space, count, String,
  string_eq,
}
use secretmediabot.Base.Table.{find, find_where}
use secretmediabot.Base.Select.{latest}
use secretmediabot.Domain.User.{User, Chat, normalize_username}
use secretmediabot.Repository.Errors.{
  ok, err, invalid_input, not_found, conflict, guest_active_limit, guest_rate_limit,
}
use secretmediabot.Repository.Rows.{
  awaiting_secret, ingesting_secret, cancelled, GuestRequestRow, Db,
}
use secretmediabot.Repository.Tx.{Tx, pure, raise, transaction, now_or, ◌>>=◌, ◌>>◌}
use secretmediabot.Repository.Mapping.{Env}
use secretmediabot.Repository.Identity.{chat_key, upsert_user, upsert_chat}
use secretmediabot.Repository.Guest.Closing.{is_guest_active_of}
use secretmediabot.Repository.Guest.{
  request_key, request_by_token, update_request, any_request, put_guest_payload,
}
use secretmediabot.Repository.Guest.Values.{
  GuestRequest, GuestPayload, guest_state_eq, to_guest_request,
}

pub record GuestCreateParams : Type 0 where
  pub request : GuestRequest
  pub sender : User
  pub chat : Option Chat
  pub text_payload : Option GuestPayload
  pub now : Time
  pub max_active_per_sender : ℤ
  pub recent_since : Time
  pub max_recent_per_sender : ℤ

-- `optionalString`
abbrev optional_string : Text → Option Text
optional_string t = if t == [] then none else some t

abbrev optional : String → Option String
optional s = if s == "" then none else some s

-- `guestRequestRowFromDomain`
abbrev pub guest_request_row_from_domain : GuestRequest → GuestRequestRow
guest_request_row_from_domain r = record {
  id = r.id;
  token_hash = r.token_hash;
  sender_id = r.sender_id;
  target_user_id = r.target_user_id;
  target_username = r.target_username;
  source_chat_id = r.source_chat_id;
  source_thread_id = r.source_thread_id;
  source_message_id = r.source_message_id;
  guest_query_id = optional_string r.guest_query_id;
  inline_query_id = optional_string r.inline_query_id;
  inline_message_id = r.inline_message_id;
  state = r.state;
  payload_kind = r.payload_kind;
  media_type = r.media_type;
  telegram_file_id = optional_string r.telegram_file_id;
  telegram_file_unique_id = optional r.telegram_file_unique;
  telegram_content_type = optional r.telegram_content;
  target_claimed_at = r.target_claimed_at;
  ingest_started_at = r.ingest_started_at;
  ingest_lease_until = r.ingest_lease_until;
  secret_ready_at = r.secret_ready_at;
  opening_reserved_at = r.opening_reserved_at;
  opening_lease_until = r.opening_lease_until;
  opened_at = r.opened_at;
  delivery_message_id = r.delivery_message_id;
  created_at = r.created_at;
  updated_at = r.updated_at;
  expires_at = r.expires_at;
  retention_delete_at = r.retention_delete_at;
}

abbrev is_bad_target : ℤ → Option ℤ → Bool
is_bad_target sender none = false
is_bad_target sender (some t) = not (is_positive t) || t == sender

abbrev is_bad_chat : Option Chat → Bool
is_bad_chat none = false
is_bad_chat (some c) = is_zero c.telegram_chat_id

unfoldable pub is_bad_request : GuestCreateParams → Time → Bool
is_bad_request p now =
    p.request.id == nil_uuid
    || not (length p.request.token_hash == sha256_size)
    || not (is_positive p.request.sender_id)
    || (is_none p.request.target_user_id && trim_space p.request.target_username == [])
    || (p.request.guest_query_id == [] && p.request.inline_query_id == [])
    || not (after p.request.expires_at now)
    || not (after p.request.retention_delete_at now)
    || not (p.sender.telegram_user_id == p.request.sender_id)
    || p.sender.is_bot
    || is_bad_target p.request.sender_id p.request.target_user_id
    || is_bad_chat p.chat

-- `sameGuestTarget`, from the target of the row and of the request.
unfoldable pub same_guest_target : Env → Text → Text → Option ℤ → Option ℤ → Bool
same_guest_target env row_name name (some r) (some t) = r == t
same_guest_target env row_name name none (some t) = false
same_guest_target env row_name name none none =
    normalize_username env.lower_beyond name == normalize_username env.lower_beyond row_name
same_guest_target env row_name name (some r) none = false

abbrev pub is_reusable : Env → GuestRequest → Time → GuestRequestRow → Bool
is_reusable env q now x =
    is_guest_active_of q.sender_id now x
    && x.state == awaiting_secret
    && same_guest_target env x.target_username q.target_username x.target_user_id q.target_user_id

-- The first row of the loop, in the order of `created_at DESC, id DESC`.
unfoldable pub reuse_candidate : Env → GuestCreateParams → Time → Db → Option GuestRequestRow
unfolding latest same_guest_target
reuse_candidate env p now db =
    if p.request.state == awaiting_secret && is_none p.text_payload
    then latest (is_reusable env p.request now) (λ (x : GuestRequestRow). x.created_at) request_key
        db.guest_requests
    else none

abbrev pub keep_query : Text → Option Text → Option Text
keep_query new old = if new == [] then old else some new

abbrev pub refreshed_request : GuestRequest → Time → GuestRequestRow → GuestRequestRow
refreshed_request q now x = record x {
  expires_at = q.expires_at;
  updated_at = now;
  guest_query_id = keep_query q.guest_query_id x.guest_query_id;
  inline_query_id = keep_query q.inline_query_id x.inline_query_id;
}

abbrev pub same_query : Option Text → Option Text → Bool
same_query none o = false
same_query (some a) none = false
same_query (some a) (some b) = a == b

-- The columns of a row that another row holds: its key, hash and query IDs are unique.
abbrev pub clashes : GuestRequestRow → GuestRequestRow → Bool
clashes r x =
    x.id == r.id
    || x.token_hash == r.token_hash
    || same_query x.guest_query_id r.guest_query_id
    || same_query x.inline_query_id r.inline_query_id

-- Another row with a query ID of the refreshed one.
unfoldable pub query_taken : GuestRequestRow → Db → Bool
query_taken r db = is_some (
    find_where
      (λ (y : GuestRequestRow).
        not (y.id == r.id)
        && (same_query y.guest_query_id r.guest_query_id
            || same_query y.inline_query_id r.inline_query_id))
      db.guest_requests)

unfoldable pub reuse_request : GuestRequest → Time → GuestRequestRow → Tx GuestRequestRow
unfolding query_taken
reuse_request q now x db =
    if query_taken (refreshed_request q now x) db
    then (err conflict, db)
    else (update_request x.id any_request (refreshed_request q now) >>= λ hit.
          pure (refreshed_request q now x))
        db

abbrev pub exceeds : ℤ → ℕ → Bool
exceeds (pos m) n = not (m == 0) && ltb m n
exceeds (negsuc m) n = false

-- The requests of the sender that run, and those that are recent.
unfoldable pub check_guest_quota : GuestCreateParams → Time → Tx (Unit {0})
unfolding count
check_guest_quota p now db =
    let active = is_guest_active_of p.request.sender_id now in
    let recent = λ (x : GuestRequestRow).
      x.sender_id == p.request.sender_id && after x.created_at p.recent_since in
    if not (
      count (λ (x : GuestRequestRow). active x && x.state == ingesting_secret) db.guest_requests
      == 0)
    then (err guest_active_limit, db)
    else if exceeds p.max_active_per_sender (suc (count active db.guest_requests))
    then (err guest_active_limit, db)
    else if not (is_zero_time p.recent_since)
        && exceeds p.max_recent_per_sender (suc (count recent db.guest_requests))
    then (err guest_rate_limit, db)
    else (ok tt, db)

abbrev pub is_superseded : ℤ → Time → GuestRequestRow → Bool
is_superseded sender now x =
    x.sender_id == sender && x.state == awaiting_secret && ltb now x.expires_at

abbrev pub supersede_if : ℤ → Time → GuestRequestRow → GuestRequestRow
supersede_if sender now x =
    if is_superseded sender now x then record x { state = cancelled; updated_at = now } else x

abbrev pub supersede : ℤ → Time → Tx (Unit {0})
supersede sender now db =
    (ok tt, record db { guest_requests = map (supersede_if sender now) db.guest_requests })

-- `domain.User{TelegramUserID: id}`
abbrev pub stub_user : ℤ → User
stub_user id = record {
  telegram_user_id = id;
  username = [];
  first_name = [];
  last_name = [];
  language_code = [];
  is_bot = false;
  has_started_private_chat = false;
  first_seen_at = 0;
  last_seen_at = 0;
  updated_at = 0;
}

unfoldable pub put_target : Time → Option ℤ → Tx (Unit {0})
unfolding upsert_user
put_target now none = pure tt
put_target now (some t) = upsert_user (stub_user t) now

unfoldable pub put_chat : Time → Option Chat → Tx (Unit {0})
unfolding upsert_chat
put_chat now none = pure tt
put_chat now (some c) = upsert_chat c now

abbrev pub chat_known : Db → Option ℤ → Bool
chat_known db none = true
chat_known db (some c) = is_some (find chat_key c db.chats)

-- The unique columns, and the reference to a chat.
unfoldable pub insert_request : GuestRequestRow → Tx (Unit {0})
insert_request r db =
    if is_some (find_where (clashes r) db.guest_requests) || not (chat_known db r.source_chat_id)
    then (err conflict, db)
    else (ok tt, record db { guest_requests = db.guest_requests ++ r ∷ [] })

unfoldable pub store_request : Env → GuestCreateParams → Time → Tx GuestRequestRow
unfolding put_target put_chat insert_request put_guest_payload upsert_user
store_request env p now = do
  supersede p.request.sender_id now
  upsert_user p.sender now
  put_target now p.request.target_user_id
  put_chat now p.chat
  insert_request (guest_request_row_from_domain p.request)
  put_guest_payload env now p.text_payload
  pure (guest_request_row_from_domain p.request)

unfoldable pub reuse_or_store :
    Env → GuestCreateParams → Time → Option GuestRequestRow → Tx GuestRequestRow
unfolding reuse_request check_guest_quota store_request
reuse_or_store env p now (some x) = reuse_request p.request now x
reuse_or_store env p now none = do check_guest_quota p now; store_request env p now

unfoldable pub create_guest_body : Env → GuestCreateParams → Time → Tx GuestRequestRow
unfolding reuse_or_store reuse_candidate
create_guest_body env p now db = reuse_or_store env p now (reuse_candidate env p now db) db

-- `Store.CreateGuestRequest`
unfoldable pub create_guest_request : Env → GuestCreateParams → Tx GuestRequest
unfolding create_guest_body is_bad_request
create_guest_request env p =
    let now = now_or env.clock p.now in
    if is_bad_request p now
    then raise invalid_input
    else (do row ← transaction (create_guest_body env p now); pure (to_guest_request row))

abbrev pub enveloped_request : Text → Time → GuestRequestRow → GuestRequestRow
enveloped_request message now x = record x { inline_message_id = message; updated_at = now }

unfoldable pub mark_row : Text → Time → Option GuestRequestRow → Tx (Unit {0})
mark_row message now none = raise not_found
mark_row message now (some x) = do
  _ ← update_request x.id any_request (enveloped_request message now)
  pure tt

-- `Store.MarkGuestEnvelope`
unfoldable pub mark_guest_envelope : Env → Bytes → Text → Time → Tx (Unit {0})
unfolding mark_row request_by_token trim_space
mark_guest_envelope env hash message value =
    if not (length hash == sha256_size) || trim_space message == []
    then raise invalid_input
    else λ db. mark_row message (now_or env.clock value) (request_by_token hash db) db
