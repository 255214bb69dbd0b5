-- ===== src/Repository/Guest/Traced/Create.antt =====
-- What `CreateGuestRequest` and `MarkGuestEnvelope` of internal/repository/guest.go do to a request that
-- is there.
use secretmediabot.Base.{
  sha256_size, length, Text, Bytes, trim_space, ℤ, ◌≡◌, refl, sym, ◌∙◌, inl, inr, ◌||◌, not, Option,
  none, some, [], ◌∷◌, Uuid, Time, ◌==◌, nat_eq, int_eq, list_eq, string_eq, arith, Bool-cases,
  is_some,
}
use secretmediabot.Base.Table.{find, find_where}
use secretmediabot.Repository.Errors.{invalid_input}
use secretmediabot.Repository.Rows.{awaiting_secret, GuestRequestRow, Db}
use secretmediabot.Repository.Tx.{
  ◌>>=◌, ◌>>◌, pure, raise, transaction, now_or, Keeps, bind-Keeps, if-Keeps, transaction-Keeps,
  ◌>>◌,
}
use secretmediabot.Repository.Mapping.{Env}
use secretmediabot.Repository.Identity.{upsert_user}
use secretmediabot.Repository.Guest.{request_key, request_by_token, any_request, put_guest_payload}
use secretmediabot.Repository.Guest.Values.{GuestRequest, guest_state_eq, to_guest_request}
use secretmediabot.Repository.Guest.Moves.{withdraw, map-Traced, Step, Traced, update-Traced}
use secretmediabot.Repository.Guest.Traced.{edge-Step, upsert_user-Traced}
use secretmediabot.Base.Table.Laws.{find_where-none, find-append, Distinct-append}
use secretmediabot.Domain.User.{Chat}
use secretmediabot.Repository.Tx.{then-Keeps}
use secretmediabot.Repository.Identity.{upsert_chat}
use secretmediabot.Repository.Guest.Create.{
  GuestCreateParams, guest_request_row_from_domain, is_bad_request, reuse_candidate,
  refreshed_request, query_taken, clashes, reuse_request, stub_user, check_guest_quota,
  is_superseded, supersede_if, supersede, put_target, put_chat, chat_known, insert_request,
  store_request, reuse_or_store, create_guest_body, create_guest_request, enveloped_request,
  mark_row, mark_guest_envelope,
}
use secretmediabot.Repository.Guest.Traced.Finalize.{put_guest_payload-Traced}

-- A change that leaves the sender, the target and the state.
still-Step :
    (x y : GuestRequestRow)
    → y.id ≡ x.id
    → y.sender_id ≡ x.sender_id
    → y.target_user_id ≡ x.target_user_id
    → y.state ≡ x.state
    → Step x y
still-Step x y keys senders targets states = record {
  same_key = keys;
  same_sender = senders;
  same_target = λ t h. targets ∙ h;
  moves = inl (sym states);
}

supersede_if-Step :
    (sender : ℤ) (now : Time) (x : GuestRequestRow) → Step x (supersede_if sender now x)
supersede_if-Step sender now x = elim (Bool-cases (is_superseded sender now x)) [
  | inl hit ↦ rw hit (edge-Step x _ awaiting_secret refl refl refl (ground (arith, hit)) withdraw)
  | inr miss ↦ rw miss (still-Step x x refl refl refl refl)
]

check_guest_quota-state :
    (p : GuestCreateParams) (now : Time) (db : Db) → (check_guest_quota p now db).1 ≡ db
unfolding check_guest_quota
check_guest_quota-state p now db = ground arith

module _ (id : Uuid) (r : GuestRequestRow) where
  abbrev T : Db → Type 0
  T db = Traced id r db

  insert_request-Traced : (x : GuestRequestRow) → Keeps T (insert_request x)
  unfolding insert_request Traced
  insert_request-Traced x db (keys, (y, found, led)) =
      elim (Bool-cases (
        is_some (find_where (clashes x) db.guest_requests)
        || not (chat_known db x.source_chat_id))) [
          | inl clash ↦ rw clash (keys, (y, found, led))
          | inr free ↦
              let unused : find request_key x.id db.guest_requests ≡ none =
                find_where-none request_key (clashes x) db.guest_requests x.id
                  (λ z same. rw same refl) (ground (arith, free)) in
              rw free (
                Distinct-append request_key db.guest_requests x unused keys,
                (y, find-append request_key id db.guest_requests (x ∷ []) y found, led),
              )
        ]

  put_target-Traced : (now : Time) (o : Option ℤ) → Keeps T (put_target now o)
  unfolding put_target
  put_target-Traced now none = λ db h. h
  put_target-Traced now (some t) = upsert_user-Traced id r (stub_user t) now

  put_chat-Traced : (now : Time) (o : Option Chat) → Keeps T (put_chat now o)
  unfolding put_chat upsert_chat Traced
  put_chat-Traced now none db h = h
  put_chat-Traced now (some c) db h = h

  store_request-Traced :
      (env : Env) (p : GuestCreateParams) (now : Time) → Keeps T (store_request env p now)
  unfolding store_request
  store_request-Traced env p now =
      let row = guest_request_row_from_domain p.request in
      let n5 = put_guest_payload env now p.text_payload >> pure row in
      let n4 = insert_request row >> n5 in
      let n3 = put_chat now p.chat >> n4 in
      let n2 = put_target now p.request.target_user_id >> n3 in
      then-Keeps T (supersede p.request.sender_id now) (upsert_user p.sender now >> n2)
        (λ db h.
          map-Traced id r (supersede_if p.request.sender_id now) db
            (supersede_if-Step p.request.sender_id now) h)
        (then-Keeps T (upsert_user p.sender now) n2 (upsert_user-Traced id r p.sender now) (
          then-Keeps T (put_target now p.request.target_user_id) n3
            (put_target-Traced now p.request.target_user_id)
            (then-Keeps T (put_chat now p.chat) n4 (put_chat-Traced now p.chat) (
              then-Keeps T (insert_request row) n5 (insert_request-Traced row) (
                then-Keeps T (put_guest_payload env now p.text_payload) (pure row)
                  (put_guest_payload-Traced id r env now p.text_payload) (λ db h. h))))))

  reuse_request-Traced :
      (q : GuestRequest) (now : Time) (x : GuestRequestRow) → Keeps T (reuse_request q now x)
  unfolding reuse_request
  reuse_request-Traced q now x db h =
      let moved =
        update-Traced id r x.id any_request (refreshed_request q now) db (λ y. refl)
          (λ y _ _. still-Step y _ refl refl refl refl) h in
      elim (Bool-cases (query_taken (refreshed_request q now x) db)) [
        | inl taken ↦ rw taken h
        | inr free ↦ rw free moved
      ]

  reuse_or_store-Traced :
      (env : Env) (p : GuestCreateParams) (now : Time) (o : Option GuestRequestRow)
      → Keeps T (reuse_or_store env p now o)
  unfolding reuse_or_store
  reuse_or_store-Traced env p now (some x) = reuse_request-Traced p.request now x
  reuse_or_store-Traced env p now none =
      then-Keeps T (check_guest_quota p now) (store_request env p now)
        (λ db h. rw (check_guest_quota-state p now db) h) (store_request-Traced env p now)

  pub create-Traced : (env : Env) (p : GuestCreateParams) → Keeps T (create_guest_request env p)
  unfolding create_guest_request create_guest_body
  create-Traced env p =
      let now = now_or env.clock p.now in
      if-Keeps T (is_bad_request p now) (raise invalid_input)
        (transaction (create_guest_body env p now) >>= λ row. pure (to_guest_request row))
        (λ db h. h)
        (bind-Keeps T (transaction (create_guest_body env p now))
          (λ row. pure (to_guest_request row))
          (transaction-Keeps T (create_guest_body env p now)
            (λ db h. reuse_or_store-Traced env p now (reuse_candidate env p now db) db h))
          (λ row db h. h))

  mark_row-Traced :
      (message : Text) (now : Time) (o : Option GuestRequestRow) → Keeps T (mark_row message now o)
  unfolding mark_row
  mark_row-Traced message now none db h = h
  mark_row-Traced message now (some x) db h =
      update-Traced id r x.id any_request (enveloped_request message now) db (λ y. refl)
        (λ y _ _. still-Step y _ refl refl refl refl) h

  pub envelope-Traced :
      (env : Env) (hash : Bytes) (message : Text) (value : Time)
      → Keeps T (mark_guest_envelope env hash message value)
  unfolding mark_guest_envelope
  envelope-Traced env hash message value =
      if-Keeps T (not (length hash == sha256_size) || trim_space message == [])
        (raise invalid_input)
        (λ db. mark_row message (now_or env.clock value) (request_by_token hash db) db) (λ db h. h)
        (λ db h. mark_row-Traced message (now_or env.clock value) (request_by_token hash db) db h)
