-- ===== src/Repository/Identity.antt =====
-- internal/repository/identity.go: users, chats and members that the bot has observed.
pub mod Lookup
pub mod Merge
use secretmediabot.Base.{
  ℕ, ℤ, Bool, true, false, ◌&&◌, ◌||◌, not, Option, none, some, List, [], ◌∷◌, ◌++◌, map, Time,
  Text, ◌==◌, nat_eq, int_eq, list_eq, if◌then◌else◌, ltb, is_positive, is_zero, is_some, trim_left,
  trim_right,
}
use secretmediabot.Base.Table.{find, find_where, modify}
use secretmediabot.Base.Select.{filter}
use secretmediabot.Domain.User.{User, Chat, is_valid_chat_type, lower_rune, normalize_username}
use secretmediabot.Repository.Errors.{
  Result, ok, err, invalid_input, not_found, ambiguous_recipient, conflict,
}
use secretmediabot.Repository.Rows.{UserRow, ChatRow, ObservedChatMemberRow, Db}
use secretmediabot.Repository.Tx.{Tx, pure, raise, take, transaction, now_or, ◌>>=◌, ◌>>◌}
use secretmediabot.Repository.Mapping.{Env}

pub record ObserveMembershipParams : Type 0 where
  pub user : User
  pub chat : Chat
  pub seen_at : Time

pub record ObserveChatMemberParams : Type 0 where
  pub chat_id : ℤ
  pub user_id : ℤ
  pub seen_at : Time

abbrev pub user_key : UserRow → ℤ
user_key u = u.telegram_user_id

abbrev pub chat_key : ChatRow → ℤ
chat_key c = c.telegram_chat_id

-- `GREATEST` of two times, and `COALESCE(NULLIF(EXCLUDED.x, ''), users.x)`.
abbrev pub greatest : Time → Time → Time
greatest a b = if ltb a b then b else a

abbrev pub keep_text : Text → Text → Text
keep_text new old = if new == [] then old else new

-- `userRow.toDomain` and `chatRow.toDomain`.
abbrev pub user_to_domain : UserRow → User
user_to_domain r = record {
  telegram_user_id = r.telegram_user_id;
  username = r.username;
  first_name = r.first_name;
  last_name = r.last_name;
  language_code = r.language_code;
  is_bot = r.is_bot;
  has_started_private_chat = r.has_started_private_chat;
  first_seen_at = r.first_seen_at;
  last_seen_at = r.last_seen_at;
  updated_at = r.updated_at;
}

abbrev pub chat_to_domain : ChatRow → Chat
chat_to_domain r = record {
  telegram_chat_id = r.telegram_chat_id;
  chat_type = r.chat_type;
  title = r.title;
  username = r.username;
  first_seen_at = r.first_seen_at;
  last_seen_at = r.last_seen_at;
  updated_at = r.updated_at;
}

abbrev pub new_user_row : User → Time → UserRow
new_user_row u seen = record {
  telegram_user_id = u.telegram_user_id;
  username = u.username;
  first_name = u.first_name;
  last_name = u.last_name;
  is_bot = u.is_bot;
  language_code = u.language_code;
  has_started_private_chat = u.has_started_private_chat;
  first_seen_at = seen;
  last_seen_at = seen;
  updated_at = seen;
}

-- The assignments of `ON CONFLICT`.
abbrev pub merged_user : User → Time → UserRow → UserRow
merged_user u seen r = record r {
  username = keep_text u.username r.username;
  first_name = keep_text u.first_name r.first_name;
  last_name = keep_text u.last_name r.last_name;
  is_bot = r.is_bot || u.is_bot;
  language_code = keep_text u.language_code r.language_code;
  has_started_private_chat = r.has_started_private_chat || u.has_started_private_chat;
  last_seen_at = greatest r.last_seen_at seen;
  updated_at = greatest r.updated_at seen;
}

abbrev pub any_user : UserRow → Bool
any_user u = true

-- `INSERT ... ON CONFLICT (telegram_user_id) DO UPDATE` on the rows.
unfoldable pub merge_users : User → Time → Option UserRow → List UserRow → List UserRow
merge_users u seen none us = us ++ new_user_row u seen ∷ []
merge_users u seen (some r) us = modify user_key u.telegram_user_id any_user (merged_user u seen) us

-- `upsertUser`
unfoldable pub upsert_user : User → Time → Tx (Unit {0})
unfolding merge_users
upsert_user u seen db = (
  ok tt,
  record db { users = merge_users u seen (find user_key u.telegram_user_id db.users) db.users },
)

abbrev pub new_chat_row : Chat → Time → ChatRow
new_chat_row c seen = record {
  telegram_chat_id = c.telegram_chat_id;
  chat_type = c.chat_type;
  title = c.title;
  username = c.username;
  first_seen_at = seen;
  last_seen_at = seen;
  updated_at = seen;
}

abbrev pub merged_chat : Chat → Time → ChatRow → ChatRow
merged_chat c seen r = record r {
  chat_type = c.chat_type;
  title = c.title;
  username = c.username;
  last_seen_at = greatest r.last_seen_at seen;
  updated_at = greatest r.updated_at seen;
}

abbrev any_chat : ChatRow → Bool
any_chat c = true

unfoldable pub merge_chats : Chat → Time → Option ChatRow → List ChatRow → List ChatRow
merge_chats c seen none cs = cs ++ new_chat_row c seen ∷ []
merge_chats c seen (some r) cs = modify chat_key c.telegram_chat_id any_chat (merged_chat c seen) cs

-- `upsertChat`
unfoldable pub upsert_chat : Chat → Time → Tx (Unit {0})
unfolding merge_chats
upsert_chat c seen db = (
  ok tt,
  record db { chats = merge_chats c seen (find chat_key c.telegram_chat_id db.chats) db.chats },
)

-- `PRIMARY KEY (chat_id, user_id)`
abbrev pub is_member : ℤ → ℤ → ObservedChatMemberRow → Bool
is_member chat user m = m.chat_id == chat && m.user_id == user

abbrev pub seen_member : Time → ObservedChatMemberRow → ObservedChatMemberRow
seen_member seen m = record m { last_seen_at = greatest m.last_seen_at seen }

unfoldable pub merge_members :
    ℤ → ℤ → Time → List ObservedChatMemberRow → List ObservedChatMemberRow
merge_members chat user seen [] =
    record { chat_id = chat; user_id = user; first_seen_at = seen; last_seen_at = seen } ∷ []
merge_members chat user seen (m ∷ ms) =
    let rest = merge_members chat user seen ms in
    if is_member chat user m then seen_member seen m ∷ ms else m ∷ rest

-- `upsertChatMember`, whose row refers to a chat and to a user.
unfoldable pub upsert_chat_member : ℤ → ℤ → Time → Tx (Unit {0})
unfolding merge_members
upsert_chat_member chat user seen db =
    if is_some (find chat_key chat db.chats) && is_some (find user_key user db.users)
    then (ok tt, record db { members = merge_members chat user seen db.members })
    else (err conflict, db)

unfoldable pub observe_membership_body : ObserveMembershipParams → Time → Tx (Unit {0})
unfolding upsert_user upsert_chat upsert_chat_member
observe_membership_body p seen = do
  upsert_user p.user seen
  upsert_chat p.chat seen
  upsert_chat_member p.chat.telegram_chat_id p.user.telegram_user_id seen

-- `Store.ObserveMembership`
unfoldable pub observe_membership : Env → ObserveMembershipParams → Tx (Unit {0})
unfolding observe_membership_body
observe_membership env p =
    if not (is_positive p.user.telegram_user_id)
      || is_zero p.chat.telegram_chat_id
      || not (is_valid_chat_type p.chat.chat_type)
    then raise invalid_input
    else transaction (observe_membership_body p (now_or env.clock p.seen_at))

-- `Store.ObserveUser`
unfoldable pub observe_user : Env → User → Time → Tx User
unfolding upsert_user
observe_user env u value = if not (is_positive u.telegram_user_id) then raise invalid_input else (do
  upsert_user u (now_or env.clock value)
  row ← take (λ db. find user_key u.telegram_user_id db.users)
  pure (user_to_domain row))

-- `Store.ObserveChat`
unfoldable pub observe_chat : Env → Chat → Time → Tx Chat
unfolding upsert_chat
observe_chat env c value =
    if is_zero c.telegram_chat_id || not (is_valid_chat_type c.chat_type)
    then raise invalid_input
    else (do
      upsert_chat c (now_or env.clock value)
      row ← take (λ db. find chat_key c.telegram_chat_id db.chats)
      pure (chat_to_domain row))

-- `Store.ObserveChatMember`
unfoldable pub observe_chat_member : Env → ObserveChatMemberParams → Tx (Unit {0})
unfolding upsert_chat_member
observe_chat_member env p =
    if is_zero p.chat_id || not (is_positive p.user_id)
    then raise invalid_input
    else upsert_chat_member p.chat_id p.user_id (now_or env.clock p.seen_at)

abbrev pub is_observed : ℤ → Db → UserRow → Bool
is_observed chat db u = is_some (find_where (is_member chat u.telegram_user_id) db.members)

-- `Store.FindObservedUserByID`
unfoldable pub find_observed_user_by_id : ℤ → ℤ → Tx User
find_observed_user_by_id chat user =
    if is_zero chat || not (is_positive user) then raise invalid_input else (do
      row ← take (λ db.
          find_where (λ (u : UserRow). is_observed chat db u && u.telegram_user_id == user)
            db.users)
      pure (user_to_domain row))

-- The generated column `NULLIF(lower(ltrim(btrim(username), '@')), '')`, [] for NULL.
unfoldable pub username_normalized : Env → UserRow → Text
unfolding trim_left
username_normalized env u = map (lower_rune env.lower_beyond) (
    trim_left (λ c. c == b'@')
      (trim_right (λ c. c == b' ') (trim_left (λ c. c == b' ') u.username)))

abbrev pub is_named : Env → ℤ → Text → Db → UserRow → Bool
is_named env chat name db u =
    is_observed chat db u && username_normalized env u == name && not u.is_bot

-- The `switch` on the number of rows, of which `LIMIT` leaves two at most.
unfoldable pub only_user : List UserRow → Result User
only_user [] = err not_found
only_user (u ∷ []) = ok (user_to_domain u)
only_user (u ∷ v ∷ us) = err ambiguous_recipient

-- `Store.FindObservedUserByUsername`
unfoldable pub find_observed_user_by_username : Env → ℤ → Text → Tx User
unfolding only_user
find_observed_user_by_username env chat username db =
    let name = normalize_username env.lower_beyond username in
    if is_zero chat || name == []
    then (err invalid_input, db)
    else (only_user (filter (is_named env chat name db) db.users), db)
