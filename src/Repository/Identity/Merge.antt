-- ===== src/Repository/Identity/Merge.antt =====
-- What observing a user again can change.
use secretmediabot.Base.{
  ℤ, ◌≡◌, ◌≢◌, ◌≤◌, refl, true, ◌&&◌, ◌||◌, not, Option, none, some, List, [], ◌∷◌, Time, Text,
  ◌==◌, nat_eq, int_eq, list_eq, arith, is_zero, is_positive, is_some, Bool-cases, inl, inr,
}
use secretmediabot.Base.Table.{find}
use secretmediabot.Base.Table.Laws.{find-modify, find-append}
use secretmediabot.Domain.User.{User, Chat, is_valid_chat_type}
use secretmediabot.Repository.Errors.{invalid_input}
use secretmediabot.Repository.Rows.{UserRow, Db}
use secretmediabot.Repository.Tx.{
  raise, pure, take, transaction, now_or, Keeps, bind-Keeps, if-Keeps, transaction-Keeps,
  take-Keeps, ◌>>=◌, ◌>>◌,
}
use secretmediabot.Repository.Mapping.{Env}
use secretmediabot.Repository.Identity.{
  ObserveMembershipParams, ObserveChatMemberParams, user_key, chat_key, chat_to_domain, keep_text,
  merged_user, any_user, merge_users, upsert_user, upsert_chat, upsert_chat_member,
  observe_membership_body, observe_membership, observe_user, observe_chat, observe_chat_member,
  user_to_domain,
}

-- A later state of one user's row.
pub record Later (r s : UserRow) : Type 0 where
  pub same_user : s.telegram_user_id ≡ r.telegram_user_id
  pub same_start : s.first_seen_at ≡ r.first_seen_at
  pub seen_no_earlier : r.last_seen_at ≤ s.last_seen_at
  pub still_bot : r.is_bot ≡ true → s.is_bot ≡ true
  pub still_started : r.has_started_private_chat ≡ true → s.has_started_private_chat ≡ true
  pub still_named : r.username ≢ [] → s.username ≢ []

keep_text-named : (new old : Text) → old ≢ [] → keep_text new old ≢ []
keep_text-named new old h = elim (Bool-cases (new == [])) [
  | inl blank ↦ rw blank h
  | inr given ↦ rw given (λ e. cc (given, (list_eq.beq_iff new []).1 e))
]

Later-refl : (r : UserRow) → Later r r
Later-refl r = record {
  same_user = refl;
  same_start = refl;
  seen_no_earlier = omega arith;
  still_bot = λ h. h;
  still_started = λ h. h;
  still_named = λ h. h;
}

merged_user-Later :
    (u : User) (seen : Time) (r s : UserRow) → Later r s → Later r (merged_user u seen s)
merged_user-Later u seen r s l = record {
  same_user = l.same_user;
  same_start = l.same_start;
  seen_no_earlier = ground (arith, l.seen_no_earlier);
  still_bot = λ h. ground (arith, l.still_bot h);
  still_started = λ h. ground (arith, l.still_started h);
  still_named = λ h. keep_text-named u.username s.username (l.still_named h);
}

module _ (id : ℤ) (r : UserRow) where
  -- The row of `id` is a later state of `r`.
  unfoldable pub Known : Db → Type 0
  Known db = (s : UserRow) × (find user_key id db.users ≡ some s) × Later r s

  merge-Known :
      (u : User) (seen : Time) (o : Option UserRow) (db : Db) (s : UserRow)
      → find user_key id db.users ≡ some s
      → Later r s
      → (t : UserRow) × (find user_key id (merge_users u seen o db.users) ≡ some t) × Later r t
  unfolding merge_users
  merge-Known u seen none db s found l = (s, find-append user_key id db.users _ s found, l)
  merge-Known u seen (some v) db s found l =
      let image =
        find-modify user_key u.telegram_user_id id any_user (merged_user u seen) db.users
          (λ x. refl) in
      elim (Bool-cases (u.telegram_user_id == id)) [
        | inl same ↦ (
          merged_user u seen s,
          ground (arith, image, same, found),
          merged_user-Later u seen r s l,
        )
        | inr other ↦ (s, ground (arith, image, other, found), l)
      ]

  pub upsert_user-Known : (u : User) (seen : Time) → Keeps Known (upsert_user u seen)
  unfolding upsert_user Known
  upsert_user-Known u seen db (s, found, l) = merge-Known u seen _ db s found l

  upsert_chat-Known : (c : Chat) (seen : Time) → Keeps Known (upsert_chat c seen)
  unfolding upsert_chat Known
  upsert_chat-Known c seen db h = h

  upsert_chat_member-Known :
      (chat user : ℤ) (seen : Time) → Keeps Known (upsert_chat_member chat user seen)
  unfolding upsert_chat_member Known
  upsert_chat_member-Known chat user seen db h =
      elim (Bool-cases
        (is_some (find chat_key chat db.chats) && is_some (find user_key user db.users))) [
          | inl there ↦ rw there h
          | inr missing ↦ rw missing h
        ]

  observe_membership-Known :
      (env : Env) (p : ObserveMembershipParams) → Keeps Known (observe_membership env p)
  unfolding observe_membership observe_membership_body
  observe_membership-Known env p =
      let seen = now_or env.clock p.seen_at in
      if-Keeps Known
        (not (is_positive p.user.telegram_user_id)
          || is_zero p.chat.telegram_chat_id
          || not (is_valid_chat_type p.chat.chat_type))
        (raise invalid_input) (transaction (observe_membership_body p seen)) (λ db h. h)
        (transaction-Keeps Known (observe_membership_body p seen) (
          bind-Keeps Known (upsert_user p.user seen)
            (λ _.
              upsert_chat p.chat seen
              >> upsert_chat_member p.chat.telegram_chat_id p.user.telegram_user_id seen)
            (upsert_user-Known p.user seen)
            (λ _.
              bind-Keeps Known (upsert_chat p.chat seen)
                (λ _. upsert_chat_member p.chat.telegram_chat_id p.user.telegram_user_id seen)
                (upsert_chat-Known p.chat seen)
                (λ _.
                  upsert_chat_member-Known p.chat.telegram_chat_id p.user.telegram_user_id seen))))

  observe_user-Known :
      (env : Env) (u : User) (value : Time) → Keeps Known (observe_user env u value)
  unfolding observe_user
  observe_user-Known env u value =
      let seen = now_or env.clock value in
      let read = λ (db : Db). find user_key u.telegram_user_id db.users in
      if-Keeps Known (not (is_positive u.telegram_user_id)) (raise invalid_input)
        (upsert_user u seen >> (take read >>= λ row. pure (user_to_domain row))) (λ db h. h)
        (bind-Keeps Known (upsert_user u seen) (λ _. take read >>= λ row. pure (user_to_domain row))
          (upsert_user-Known u seen)
          (λ _.
            bind-Keeps Known (take read) (λ row. pure (user_to_domain row)) (take-Keeps Known read)
              (λ row db h. h)))

  observe_chat-Known :
      (env : Env) (c : Chat) (value : Time) → Keeps Known (observe_chat env c value)
  unfolding observe_chat
  observe_chat-Known env c value =
      let seen = now_or env.clock value in
      let read = λ (db : Db). find chat_key c.telegram_chat_id db.chats in
      if-Keeps Known (is_zero c.telegram_chat_id || not (is_valid_chat_type c.chat_type))
        (raise invalid_input)
        (upsert_chat c seen >> (take read >>= λ row. pure (chat_to_domain row))) (λ db h. h)
        (bind-Keeps Known (upsert_chat c seen) (λ _. take read >>= λ row. pure (chat_to_domain row))
          (upsert_chat-Known c seen)
          (λ _.
            bind-Keeps Known (take read) (λ row. pure (chat_to_domain row)) (take-Keeps Known read)
              (λ row db h. h)))

  observe_chat_member-Known :
      (env : Env) (p : ObserveChatMemberParams) → Keeps Known (observe_chat_member env p)
  unfolding observe_chat_member
  observe_chat_member-Known env p =
      if-Keeps Known (is_zero p.chat_id || not (is_positive p.user_id)) (raise invalid_input)
        (upsert_chat_member p.chat_id p.user_id (now_or env.clock p.seen_at)) (λ db h. h)
        (upsert_chat_member-Known p.chat_id p.user_id (now_or env.clock p.seen_at))

pub data Observation : Type 0 where
  membership : Env → ObserveMembershipParams → Observation
  a_user : Env → User → Time → Observation
  a_chat : Env → Chat → Time → Observation
  a_member : Env → ObserveChatMemberParams → Observation

unfoldable pub run_observation : Observation → Db → Db
run_observation (membership env p) db = (observe_membership env p db).1
run_observation (a_user env u seen) db = (observe_user env u seen db).1
run_observation (a_chat env c seen) db = (observe_chat env c seen db).1
run_observation (a_member env p) db = (observe_chat_member env p db).1

unfoldable pub run_observations : List Observation → Db → Db
unfolding run_observation
run_observations [] db = db
run_observations (o ∷ os) db = run_observations os (run_observation o db)

run_observation-Known :
    (id : ℤ) (r : UserRow) (o : Observation) (db : Db)
    → Known id r db
    → Known id r (run_observation o db)
unfolding run_observation
run_observation-Known id r (membership env p) db h = observe_membership-Known id r env p db h
run_observation-Known id r (a_user env u seen) db h = observe_user-Known id r env u seen db h
run_observation-Known id r (a_chat env c seen) db h = observe_chat-Known id r env c seen db h
run_observation-Known id r (a_member env p) db h = observe_chat_member-Known id r env p db h

run_observations-Known :
    (id : ℤ) (r : UserRow) (os : List Observation) (db : Db)
    → Known id r db
    → Known id r (run_observations os db)
unfolding run_observations
run_observations-Known id r [] db h = h
run_observations-Known id r (o ∷ os) db h =
    run_observations-Known id r os (run_observation o db) (run_observation-Known id r o db h)

-- Along any sequence of ObserveMembership, ObserveUser, ObserveChat and ObserveChatMember calls, a
-- user that is in the table stays there with the same ID and first-seen time; the last-seen time
-- never goes back, and a bot, a user who started a private chat, and a user with a username stay so.
pub run_observations-Later :
    (os : List Observation) (db : Db) (id : ℤ) (r : UserRow)
    → find user_key id db.users ≡ some r
    → (s : UserRow) × (find user_key id (run_observations os db).users ≡ some s) × Later r s
unfolding Known
run_observations-Later os db id r found = run_observations-Known id r os db (r, found, Later-refl r)
