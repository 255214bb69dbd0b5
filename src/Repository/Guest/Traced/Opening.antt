-- ===== src/Repository/Guest/Traced/Opening.antt =====
-- What claiming, completing and opening of internal/repository/guest.go do to one request.
use secretmediabot.Base.{
  ℤ, ◌≡◌, refl, sym, ap, ◌∙◌, inl, inr, true, ◌&&◌, ◌||◌, not, Option, none, some, Uuid, Time, ◌==◌,
  nat_eq, int_eq, list_eq, string_eq, arith, Bool-cases, if◌then◌else◌, after, is_positive,
  is_zero_time, nil_uuid, is_some,
}
use secretmediabot.Base.Table.{find_where}
use secretmediabot.Domain.Content.{PayloadKind}
use secretmediabot.Domain.User.{User}
use secretmediabot.Repository.Errors.{
  Result, ok, err, invalid_input, not_found, unauthorized, conflict, lease_lost, already_opened,
  not_active, guest_opening_in_progress,
}
use secretmediabot.Repository.Errors
use secretmediabot.Repository.Rows.{
  GuestState, awaiting_secret, ingesting_secret, ready, opening, opened, cancelled, GuestRequestRow,
  GuestPrivateDeleteJobRow, Db,
}
use secretmediabot.Repository.Tx.{
  pure, raise, require, transaction, now_or, Keeps, if-Keeps, transaction-Keeps, take_keeps,
  require_keeps, bind_keeps, pure_keeps, if_keeps, ◌>>◌,
}
use secretmediabot.Repository.Mapping.{Env}
use secretmediabot.Repository.Identity.{upsert_user}
use secretmediabot.Repository.Guest.Closing.{
  holds_opening, opened_request, guest_job, insert_guest_job, queue_guest_job, queue_guest_deletion,
  complete_guest_body, complete_guest_open,
}
use secretmediabot.Repository.Guest.Params.{GuestCompleteOpenParams}
use secretmediabot.Repository.Guest.{find_request, request_by_token, update_request, any_request}
use secretmediabot.Repository.Guest.Values.{guest_state_eq, to_guest_request}
use secretmediabot.Repository.Guest.Claim.{
  GuestClaimTargetParams, GuestClaimOpenParams, may_be_target, is_over, targeted_request,
  bind_target, claim_target_found, claim_target_body, is_bad_identity, claim_guest_target,
  load_guest_delivery_content, opening_request, reserved_request, may_open, reserve_guest,
  opening_runs, open_by_state, claim_open_found, claim_open_body, claim_guest_open,
}
use secretmediabot.Repository.Guest.Moves.{
  reserve, deliver, Stays, Step, Traced, update-Traced, some_same,
}
use secretmediabot.Repository.Guest.Traced.{edge-Step, target-kept, token-found, upsert_user-Traced}

-- The row that a claim has read binds the target that it names.
bound-Step :
    (env : Env) (u : User) (x y z : GuestRequestRow)
    → may_be_target env u x.target_user_id x.target_username ≡ true
    → y ≡ x
    → z.id ≡ y.id
    → z.sender_id ≡ y.sender_id
    → z.target_user_id ≡ some u.telegram_user_id
    → Stays y.state z.state
    → Step y z
bound-Step env u x y z may same keys senders target moves = record {
  same_key = keys;
  same_sender = senders;
  same_target = λ t h.
      target
      ∙ target-kept env u x.target_user_id x.target_username may t
          (ap (λ w. w.target_user_id) (sym same) ∙ h);
  moves = moves;
}

open-Stays : (s : GuestState) → (s == ready || s == opening) ≡ true → Stays s opening
open-Stays s h = elim (Bool-cases (s == ready)) [
  | inl is_ready ↦ inr (rw ((guest_state_eq.beq_iff s ready).0 is_ready) reserve)
  | inr other ↦ inl ((guest_state_eq.beq_iff s opening).0 (ground (arith, h, other)))
]

module _ (id : Uuid) (r : GuestRequestRow) where
  abbrev T : Db → Type 0
  T db = Traced id r db

  insert_guest_job-Traced : (j : GuestPrivateDeleteJobRow) → Keeps T (insert_guest_job j)
  unfolding insert_guest_job Traced
  insert_guest_job-Traced j db h =
      elim (Bool-cases (
        is_some (
          find_where
            (λ (x : GuestPrivateDeleteJobRow).
              x.chat_id == j.chat_id && x.message_id == j.message_id)
            db.guest_jobs))) [ inl clash ↦ rw clash h | inr free ↦ rw free h ]

  queue_guest_job-Traced :
      (p : GuestCompleteOpenParams) (now : Time) (o : Option ℤ) → Keeps T (queue_guest_job p now o)
  unfolding queue_guest_job
  queue_guest_job-Traced p now none = λ db h. h
  queue_guest_job-Traced p now (some chat) = insert_guest_job-Traced (guest_job p now chat)

  queue_guest_deletion-Traced :
      (p : GuestCompleteOpenParams) (now : Time) → Keeps T (queue_guest_deletion p now)
  unfolding queue_guest_deletion
  queue_guest_deletion-Traced p now db h =
      take_keeps T (find_request p.request_id) (λ x. queue_guest_job p now x.target_user_id) db h
        (λ x _. queue_guest_job-Traced p now x.target_user_id db h)

  complete_guest_body-Traced :
      (p : GuestCompleteOpenParams) (now : Time) → Keeps T (complete_guest_body p now)
  unfolding complete_guest_body
  complete_guest_body-Traced p now db h =
      let rest = if after p.delete_at now then queue_guest_deletion p now else pure tt in
      let done =
        update-Traced id r p.request_id (holds_opening p.expected_lease_until)
          (opened_request p now) db (λ x. refl)
          (λ x _ pass. edge-Step x _ opening refl refl refl (ground (arith, pass)) deliver) h in
      bind_keeps T
        (update_request p.request_id (holds_opening p.expected_lease_until) (opened_request p now))
        (λ hit. require hit lease_lost >> rest) db done
        (λ hit _. require_keeps T hit lease_lost rest _ done (λ _.
          if-Keeps T (after p.delete_at now) (queue_guest_deletion p now) (pure tt)
            (queue_guest_deletion-Traced p now) (λ db h. h) _ done))

  pub complete_guest_open-Traced :
      (env : Env) (p : GuestCompleteOpenParams) → Keeps T (complete_guest_open env p)
  unfolding complete_guest_open
  complete_guest_open-Traced env p =
      if-Keeps T
        (p.request_id == nil_uuid
          || is_zero_time p.expected_lease_until
          || not (is_positive p.message_id))
        (raise invalid_input) (transaction (complete_guest_body p (now_or env.clock p.now)))
        (λ db h. h)
        (transaction-Keeps T (complete_guest_body p (now_or env.clock p.now))
          (complete_guest_body-Traced p (now_or env.clock p.now)))

  bind_target-Traced :
      (env : Env) (u : User) (now : Time) (x : GuestRequestRow) (db : Db)
      → may_be_target env u x.target_user_id x.target_username ≡ true
      → find_request x.id db ≡ some x
      → T db
      → T (bind_target u now x db).1
  unfolding bind_target upsert_user
  bind_target-Traced env u now x db may found h =
      update-Traced id r x.id any_request (targeted_request u now) (upsert_user u now db).1
        (λ y. refl)
        (λ y found' _.
          bound-Step env u x y (targeted_request u now y) may (some_same y x (sym found' ∙ found))
            refl refl refl (inl refl))
        (upsert_user-Traced id r u now db h)

  pub claim_target-Traced :
      (env : Env) (p : GuestClaimTargetParams) → Keeps T (claim_guest_target env p)
  unfolding claim_guest_target claim_target_body claim_target_found
  claim_target-Traced env p =
      let now = now_or env.clock p.now in
      if-Keeps T (is_bad_identity p.token_hash p.user) (raise invalid_input)
        (transaction (claim_target_body env p now)) (λ db h. h)
        (transaction-Keeps T (claim_target_body env p now) (λ db h.
          take_keeps T (request_by_token p.token_hash) (claim_target_found env p now) db h
            (λ x found. require_keeps T (not (x.state == opened)) already_opened _ db h (λ _.
              require_keeps T (not (is_over now x)) Errors.Error.expired _ db h (λ _.
                require_keeps T (may_be_target env p.user x.target_user_id x.target_username)
                  unauthorized _ db h
                  (λ may.
                    require_keeps T (not (x.sender_id == p.user.telegram_user_id)) unauthorized
                      (bind_target p.user now x) db h
                      (λ _.
                        bind_target-Traced env p.user now x db may
                          (token-found id r p.token_hash db x h found) h)))))))

  load-Traced :
      (x : GuestRequestRow) (kind : Option PayloadKind)
      → Keeps T (load_guest_delivery_content x kind)
  unfolding load_guest_delivery_content
  load-Traced x none db h = h
  load-Traced x (some PayloadKind.text) db h = h
  load-Traced x (some PayloadKind.media) db h = h
  load-Traced x (some (PayloadKind.other s)) db h = h

  reserve_guest-Traced :
      (env : Env) (p : GuestClaimOpenParams) (now : Time) (x : GuestRequestRow) (db : Db)
      → may_be_target env p.user x.target_user_id x.target_username ≡ true
      → find_request x.id db ≡ some x
      → T db
      → T (reserve_guest p now x db).1
  unfolding reserve_guest upsert_user
  reserve_guest-Traced env p now x db may found h =
      let moved =
        update-Traced id r x.id may_open (opening_request p now) (upsert_user p.user now db).1
          (λ y. refl)
          (λ y found' pass.
            bound-Step env p.user x y (opening_request p now y) may
              (some_same y x (sym found' ∙ found)) refl refl refl (open-Stays y.state pass))
          (upsert_user-Traced id r p.user now db h) in
      pure_keeps T (load_guest_delivery_content (reserved_request p now x) x.payload_kind)
        (λ c. record { request = to_guest_request (reserved_request p now x); content = c }) _
        (load-Traced (reserved_request p now x) x.payload_kind _ moved)

  open_by_state-Traced :
      (env : Env) (p : GuestClaimOpenParams) (now : Time) (s : GuestState) (x : GuestRequestRow)
      (db : Db)
      → may_be_target env p.user x.target_user_id x.target_username ≡ true
      → find_request x.id db ≡ some x
      → T db
      → T (open_by_state p now s x db).1
  unfolding open_by_state
  open_by_state-Traced env p now opened x db may found h = h
  open_by_state-Traced env p now awaiting_secret x db may found h = h
  open_by_state-Traced env p now ingesting_secret x db may found h = h
  open_by_state-Traced env p now opening x db may found h =
      if_keeps T (opening_runs now x.opening_lease_until) (raise guest_opening_in_progress)
        (reserve_guest p now x) db (λ _. h) (λ _. reserve_guest-Traced env p now x db may found h)
  open_by_state-Traced env p now ready x db may found h =
      reserve_guest-Traced env p now x db may found h
  open_by_state-Traced env p now cancelled x db may found h = h
  open_by_state-Traced env p now GuestState.expired x db may found h = h

  pub claim_open-Traced : (env : Env) (p : GuestClaimOpenParams) → Keeps T (claim_guest_open env p)
  unfolding claim_guest_open claim_open_body claim_open_found
  claim_open-Traced env p =
      let now = now_or env.clock p.now in
      if-Keeps T (is_bad_identity p.token_hash p.user || not (after p.lease_until now))
        (raise invalid_input) (transaction (claim_open_body env p now)) (λ db h. h)
        (transaction-Keeps T (claim_open_body env p now) (λ db h.
          take_keeps T (request_by_token p.token_hash) (claim_open_found env p now) db h (λ x found.
            require_keeps T (after x.expires_at now) Errors.Error.expired _ db h (λ _.
              require_keeps T (not (x.sender_id == p.user.telegram_user_id)) unauthorized _ db h
                (λ _.
                  require_keeps T (may_be_target env p.user x.target_user_id x.target_username)
                    unauthorized (open_by_state p now x.state x) db h
                    (λ may.
                      open_by_state-Traced env p now x.state x db may
                        (token-found id r p.token_hash db x h found) h))))))
