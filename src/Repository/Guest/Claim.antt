-- ===== src/Repository/Guest/Claim.antt =====
-- internal/repository/guest.go: `ClaimGuestTarget` and `ClaimGuestOpen`.
use secretmediabot.Base.{
  ℤ, pos, Bool, false, ◌&&◌, ◌||◌, not, Option, none, some, [], Time, Bytes, Uuid, Text, String,
  ◌==◌, nat_eq, int_eq, list_eq, string_eq, if◌then◌else◌, after, before, is_positive, length,
  sha256_size,
}
use secretmediabot.Base.Table.{find_where}
use secretmediabot.Domain.Content.{PayloadKind, MediaType}
use secretmediabot.Domain.User.{User, normalize_username}
use secretmediabot.Repository.Errors.{
  Result, ok, err, invalid_input, not_found, unauthorized, conflict, already_opened, not_active,
  guest_opening_in_progress,
}
use secretmediabot.Repository.Errors
use secretmediabot.Repository.Rows.{
  GuestState, awaiting_secret, ingesting_secret, ready, opening, opened, cancelled, GuestRequestRow,
  GuestPayloadRow, Db,
}
use secretmediabot.Repository.Tx.{Tx, pure, raise, require, take, transaction, now_or, ◌>>=◌, ◌>>◌}
use secretmediabot.Repository.Mapping.{Env, StoredEncryptedPayload}
use secretmediabot.Repository.Opening.Params.{DeliveryMedia}
use secretmediabot.Repository.Identity.{upsert_user}
use secretmediabot.Repository.Guest.{request_by_token, update_request, any_request}
use secretmediabot.Repository.Guest.Values.{
  GuestRequest, guest_state_eq, to_guest_request, guest_to_stored, string_value,
}

pub record GuestClaimTargetParams : Type 0 where
  pub token_hash : Bytes
  pub user : User
  pub now : Time

pub record GuestClaimOpenParams : Type 0 where
  pub token_hash : Bytes
  pub user : User
  pub now : Time
  pub lease_until : Time

pub record GuestDeliveryContent : Type 0 where
  pub kind : PayloadKind
  pub text : Option StoredEncryptedPayload
  pub media : Option DeliveryMedia
  pub caption : Option StoredEncryptedPayload

pub record GuestOpenReservation : Type 0 where
  pub request : GuestRequest
  pub content : GuestDeliveryContent

-- A bound ID is authoritative; before that the username decides, if there is one.
unfoldable pub may_be_target : Env → User → Option ℤ → Text → Bool
may_be_target env u (some target) name = target == u.telegram_user_id
may_be_target env u none name =
    name == []
    || normalize_username env.lower_beyond u.username == normalize_username env.lower_beyond name

abbrev pub is_over : Time → GuestRequestRow → Bool
is_over now r = before r.expires_at now || r.state == GuestState.expired || r.state == cancelled

abbrev pub targeted_request : User → Time → GuestRequestRow → GuestRequestRow
targeted_request u now r = record r {
  target_user_id = some u.telegram_user_id;
  target_claimed_at = some now;
  updated_at = now;
}

unfoldable pub bind_target : User → Time → GuestRequestRow → Tx GuestRequest
unfolding upsert_user
bind_target u now r = do
  upsert_user u now
  _ ← update_request r.id any_request (targeted_request u now)
  pure (to_guest_request (targeted_request u now r))

unfoldable pub claim_target_found :
    Env → GuestClaimTargetParams → Time → GuestRequestRow → Tx GuestRequest
unfolding bind_target may_be_target
claim_target_found env p now r = do
  require (not (r.state == opened)) already_opened
  require (not (is_over now r)) Errors.Error.expired
  require (may_be_target env p.user r.target_user_id r.target_username) unauthorized
  require (not (r.sender_id == p.user.telegram_user_id)) unauthorized
  bind_target p.user now r

unfoldable pub claim_target_body : Env → GuestClaimTargetParams → Time → Tx GuestRequest
unfolding claim_target_found request_by_token
claim_target_body env p now = do
  r ← take (request_by_token p.token_hash)
  claim_target_found env p now r

abbrev pub is_bad_identity : Bytes → User → Bool
is_bad_identity hash u =
    not (length hash == sha256_size) || not (is_positive u.telegram_user_id) || u.is_bot

-- `Store.ClaimGuestTarget`
unfoldable pub claim_guest_target : Env → GuestClaimTargetParams → Tx GuestRequest
unfolding claim_target_body
claim_guest_target env p =
    if is_bad_identity p.token_hash p.user
    then raise invalid_input
    else transaction (claim_target_body env p (now_or env.clock p.now))

abbrev pub guest_payload_of : Uuid → String → Db → Option GuestPayloadRow
guest_payload_of id purpose db =
    find_where (λ (x : GuestPayloadRow). x.request_id == id && x.purpose == purpose)
      db.guest_payloads

abbrev stored_payload : Option GuestPayloadRow → Option StoredEncryptedPayload
stored_payload none = none
stored_payload (some r) = some (guest_to_stored r)

unfoldable pub guest_text : Option GuestPayloadRow → Result GuestDeliveryContent
guest_text none = err not_found
guest_text (some r) = ok (record {
  kind = PayloadKind.text;
  text = some (guest_to_stored r);
  media = none;
  caption = none;
})

unfoldable pub guest_media :
    GuestRequestRow
    → Option MediaType
    → Option Text
    → Option GuestPayloadRow
    → Result GuestDeliveryContent
guest_media r (some kind) (some file) caption =
    if file == []
    then err conflict
    else ok (record {
      kind = PayloadKind.media;
      text = none;
      media = some (record {
        blob_id = r.id;
        media_type = kind;
        telegram_file_id = file;
        telegram_file_unique_id = string_value r.telegram_file_unique_id;
        content_type = string_value r.telegram_content_type;
        plaintext_size = pos 0;
      });
      caption = stored_payload caption;
    })
guest_media r _ _ caption = err conflict

-- `loadGuestDeliveryContent`. A request without a kind, whose nil pointer the source would follow, is a
-- conflict here.
unfoldable pub load_guest_delivery_content :
    GuestRequestRow → Option PayloadKind → Tx GuestDeliveryContent
unfolding guest_text guest_media
load_guest_delivery_content r (some PayloadKind.text) db =
    (guest_text (guest_payload_of r.id "text" db), db)
load_guest_delivery_content r (some PayloadKind.media) db =
    (guest_media r r.media_type r.telegram_file_id (guest_payload_of r.id "caption" db), db)
load_guest_delivery_content r _ db = (err conflict, db)

abbrev pub opening_request : GuestClaimOpenParams → Time → GuestRequestRow → GuestRequestRow
opening_request p now r = record r {
  target_user_id = some p.user.telegram_user_id;
  target_claimed_at = some now;
  state = opening;
  opening_reserved_at = some now;
  opening_lease_until = some p.lease_until;
  updated_at = now;
}

-- The row that is returned keeps its old `updated_at`.
abbrev pub reserved_request : GuestClaimOpenParams → Time → GuestRequestRow → GuestRequestRow
reserved_request p now r = record (opening_request p now r) { updated_at = r.updated_at }

abbrev pub may_open : GuestRequestRow → Bool
may_open r = r.state == ready || r.state == opening

unfoldable pub reserve_guest :
    GuestClaimOpenParams → Time → GuestRequestRow → Tx GuestOpenReservation
unfolding upsert_user load_guest_delivery_content
reserve_guest p now r = do
  upsert_user p.user now
  _ ← update_request r.id may_open (opening_request p now)
  content ← load_guest_delivery_content (reserved_request p now r) r.payload_kind
  pure (record { request = to_guest_request (reserved_request p now r); content = content })

abbrev pub opening_runs : Time → Option Time → Bool
opening_runs now none = false
opening_runs now (some lease) = after lease now

-- The `switch` on the state.
unfoldable pub open_by_state :
    GuestClaimOpenParams → Time → GuestState → GuestRequestRow → Tx GuestOpenReservation
unfolding reserve_guest
open_by_state p now opened r = raise already_opened
open_by_state p now awaiting_secret r = raise not_active
open_by_state p now ingesting_secret r = raise not_active
open_by_state p now opening r =
    if opening_runs now r.opening_lease_until
    then raise guest_opening_in_progress
    else reserve_guest p now r
open_by_state p now ready r = reserve_guest p now r
open_by_state p now _ r = raise conflict

unfoldable pub claim_open_found :
    Env → GuestClaimOpenParams → Time → GuestRequestRow → Tx GuestOpenReservation
unfolding open_by_state may_be_target
claim_open_found env p now r = do
  require (after r.expires_at now) Errors.Error.expired
  require (not (r.sender_id == p.user.telegram_user_id)) unauthorized
  require (may_be_target env p.user r.target_user_id r.target_username) unauthorized
  open_by_state p now r.state r

unfoldable pub claim_open_body : Env → GuestClaimOpenParams → Time → Tx GuestOpenReservation
unfolding claim_open_found request_by_token
claim_open_body env p now = do
  r ← take (request_by_token p.token_hash)
  claim_open_found env p now r

-- `Store.ClaimGuestOpen`
unfoldable pub claim_guest_open : Env → GuestClaimOpenParams → Tx GuestOpenReservation
unfolding claim_open_body
claim_guest_open env p =
    let now = now_or env.clock p.now in
    if is_bad_identity p.token_hash p.user || not (after p.lease_until now)
    then raise invalid_input
    else transaction (claim_open_body env p now)
