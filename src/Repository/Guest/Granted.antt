-- ===== src/Repository/Guest/Granted.antt =====
-- What a ClaimGuestOpen of internal/repository/guest.go that succeeds has found and left.
use secretmediabot.Base.{
  Bool-cases, Text, ℤ, [], ◌≡◌, ◌≢◌, ◌≤◌, ◌<◌, refl, sym, ap, ◌∙◌, ◌⊎◌, inl, inr, true, false, ◌||◌,
  not, Option, none, some, Time, ◌==◌, nat_eq, int_eq, list_eq, arith, after,
}
use secretmediabot.Base.Table.{Distinct, find_where-passes}
use secretmediabot.Base.Table.Laws.{find_where-modify, find_where-find}
use secretmediabot.Domain.User.{User, normalize_username}
use secretmediabot.Domain.Content.{PayloadKind}
use secretmediabot.Repository.Errors.{ok, unauthorized, invalid_input, guest_opening_in_progress}
use secretmediabot.Repository.Errors
use secretmediabot.Repository.Rows.{
  GuestState, awaiting_secret, ingesting_secret, ready, opening, opened, cancelled, GuestRequestRow,
  Db,
}
use secretmediabot.Repository.Tx.{transaction, raise, now_or, pure_keeps}
use secretmediabot.Repository.Success.{
  Yields, take-Yields, require-Yields, if-Yields, transaction-Yields,
}
use secretmediabot.Repository.Mapping.{Env}
use secretmediabot.Repository.Identity.{upsert_user}
use secretmediabot.Repository.Guest.{request_key, request_by_token, update_request}
use secretmediabot.Repository.Guest.Moves.{Traced, Led-refl, some_same}
use secretmediabot.Repository.Guest.Traced.Opening.{claim_open-Traced}
use secretmediabot.Repository.Guest.Values.{guest_state_eq, to_guest_request}
use secretmediabot.Repository.Guest.Claim.{
  GuestClaimOpenParams, GuestOpenReservation, may_be_target, is_bad_identity,
  load_guest_delivery_content, opening_request, reserved_request, may_open, reserve_guest,
  opening_runs, open_by_state, claim_open_found, claim_open_body, claim_guest_open,
}

-- The request that the call has found in `before`, and what it has become in `e`.
pub record Granted (env : Env) (p : GuestClaimOpenParams) (now : Time) (before e : Db)
    : Type 0 where
  pub request : GuestRequestRow
  pub found : request_by_token p.token_hash before ≡ some request
  pub unexpired : now < request.expires_at
  pub not_sender : request.sender_id ≢ p.user.telegram_user_id
  pub is_target :
      (request.target_user_id ≡ some p.user.telegram_user_id)
      ⊎ ((request.target_user_id ≡ none)
          × ((request.target_username ≡ [])
              ⊎ (normalize_username env.lower_beyond p.user.username
                  ≡ normalize_username env.lower_beyond request.target_username)))
  pub openable :
      (request.state ≡ ready)
      ⊎ ((request.state ≡ opening) × ((t : Time) → request.opening_lease_until ≡ some t → t ≤ now))
  pub left : GuestRequestRow
  pub reserved : request_by_token p.token_hash e ≡ some left
  pub same_request : left.id ≡ request.id
  pub same_sender : left.sender_id ≡ request.sender_id
  pub bound : left.target_user_id ≡ some p.user.telegram_user_id
  pub in_opening : left.state ≡ opening
  pub leased : left.opening_lease_until ≡ some p.lease_until

target-named :
    (env : Env) (u : User) (o : Option ℤ) (name : Text)
    → may_be_target env u o name ≡ true
    → (o ≡ some u.telegram_user_id)
      ⊎ ((o ≡ none)
          × ((name ≡ [])
              ⊎ (normalize_username env.lower_beyond u.username
                  ≡ normalize_username env.lower_beyond name)))
unfolding may_be_target
target-named env u (some t) name h = inl (ap some ((int_eq.beq_iff t u.telegram_user_id).0 h))
target-named env u none name h = elim (Bool-cases (name == [])) [
  | inl blank ↦ inr (refl, inl ((list_eq.beq_iff name []).0 blank))
  | inr given ↦ inr (refl, inr ((list_eq.beq_iff _ _).0 (rw given at h)))
]

lapsed_by :
    (now : Time) (o : Option Time) → opening_runs now o ≡ false → (t : Time) → o ≡ some t → t ≤ now
lapsed_by now none h t e = cc
lapsed_by now (some s) h t e = ground (arith, h, e)

load-state :
    (x : GuestRequestRow) (o : Option PayloadKind) (db : Db)
    → (load_guest_delivery_content x o db).1 ≡ db
unfolding load_guest_delivery_content
load-state x none db = refl
load-state x (some PayloadKind.text) db = refl
load-state x (some PayloadKind.media) db = refl
load-state x (some (PayloadKind.other s)) db = refl

reserve_guest-state :
    (p : GuestClaimOpenParams) (now : Time) (x : GuestRequestRow) (db : Db)
    → (reserve_guest p now x db).1
      ≡ (update_request x.id may_open (opening_request p now) (upsert_user p.user now db).1).1
unfolding reserve_guest
reserve_guest-state p now x db =
    let mid =
      (update_request x.id may_open (opening_request p now) (upsert_user p.user now db).1).1 in
    pure_keeps (λ d. d ≡ mid)
      (load_guest_delivery_content (reserved_request p now x) x.payload_kind)
      (λ c. record { request = to_guest_request (reserved_request p now x); content = c }) mid
      (load-state (reserved_request p now x) x.payload_kind mid)

abbrev Openable : Time → GuestRequestRow → Type 0
Openable now x =
    (x.state ≡ ready) ⊎ ((x.state ≡ opening) × (opening_runs now x.opening_lease_until ≡ false))

Openable-may_open : (now : Time) (x : GuestRequestRow) → Openable now x → may_open x ≡ true
Openable-may_open now x (inl waits) = ground (arith, guest_state_eq.beq_iff x.state ready)
Openable-may_open now x (inr (lapsed, _)) = ground (arith, guest_state_eq.beq_iff x.state opening)

module _ (env : Env) (p : GuestClaimOpenParams) (now : Time) (before : Db)
    (keys : Distinct request_key before.guest_requests) where
  reserve-Granted :
      (x : GuestRequestRow)
      → request_by_token p.token_hash before ≡ some x
      → after x.expires_at now ≡ true
      → not (x.sender_id == p.user.telegram_user_id) ≡ true
      → may_be_target env p.user x.target_user_id x.target_username ≡ true
      → Openable now x
      → Yields (reserve_guest p now x) before (Granted env p now before)
  unfolding request_by_token upsert_user
  reserve-Granted x found timely other target openable b done =
      rw (reserve_guest-state p now x before) (record {
        request = x;
        found = found;
        unexpired = ground (arith, timely);
        not_sender =
            λ same. cc (other, (int_eq.beq_iff x.sender_id p.user.telegram_user_id).1 same);
        is_target = target-named env p.user x.target_user_id x.target_username target;
        openable = elim openable [
          | inl waits ↦ inl waits
          | inr (opens, lapsed) ↦ inr (opens, lapsed_by now x.opening_lease_until lapsed)
        ];
        left = opening_request p now x;
        same_request = refl;
        same_sender = refl;
        bound = refl;
        in_opening = refl;
        leased = refl;
        reserved =
            find_where-modify request_key (λ (r : GuestRequestRow). r.token_hash == p.token_hash)
              may_open (opening_request p now) before.guest_requests x keys found
              (Openable-may_open now x openable)
              (find_where-passes (λ (r : GuestRequestRow). r.token_hash == p.token_hash)
                before.guest_requests x found);
      })

  by_state-Granted :
      (s : GuestState) (x : GuestRequestRow)
      → x.state ≡ s
      → request_by_token p.token_hash before ≡ some x
      → after x.expires_at now ≡ true
      → not (x.sender_id == p.user.telegram_user_id) ≡ true
      → may_be_target env p.user x.target_user_id x.target_username ≡ true
      → Yields (open_by_state p now s x) before (Granted env p now before)
  unfolding open_by_state
  by_state-Granted opened x same found timely other target b done = cc
  by_state-Granted awaiting_secret x same found timely other target b done = cc
  by_state-Granted ingesting_secret x same found timely other target b done = cc
  by_state-Granted cancelled x same found timely other target b done = cc
  by_state-Granted GuestState.expired x same found timely other target b done = cc
  by_state-Granted ready x same found timely other target b done =
      reserve-Granted x found timely other target (inl same) b done
  by_state-Granted opening x same found timely other target b done =
      if-Yields (Granted env p now before) (opening_runs now x.opening_lease_until)
        (raise guest_opening_in_progress) (reserve_guest p now x) before (λ _ c e. cc)
        (λ lapsed. reserve-Granted x found timely other target (inr (same, lapsed))) b done

  body-Granted : Yields (claim_open_body env p now) before (Granted env p now before)
  unfolding claim_open_body claim_open_found
  body-Granted =
      let P = Granted env p now before in
      take-Yields P (request_by_token p.token_hash) (claim_open_found env p now) before (λ x found.
        require-Yields P (after x.expires_at now) Errors.Error.expired _ before (λ timely.
          require-Yields P (not (x.sender_id == p.user.telegram_user_id)) unauthorized _ before
            (λ other.
              require-Yields P (may_be_target env p.user x.target_user_id x.target_username)
                unauthorized (open_by_state p now x.state x) before
                (λ target. by_state-Granted x.state x refl found timely other target))))

-- Where request keys are distinct, if ClaimGuestOpen returns a reservation, then the token names a
-- request that has not expired, of another sender, and that was ready or in an opening without a lease
-- or with one that has ended; the user's ID is the one that is bound to it, or none is bound and its
-- username is the user's up to normalization, or it has no username either; and the token now names
-- that request, with the same sender, in the opening state, with the lease of the call and the user as
-- its target.
pub claim_guest_open-Granted :
    (env : Env) (p : GuestClaimOpenParams) (db : Db) (a : GuestOpenReservation)
    → Distinct request_key db.guest_requests
    → (claim_guest_open env p db).0 ≡ ok a
    → Granted env p (now_or env.clock p.now) db (claim_guest_open env p db).1
unfolding claim_guest_open
claim_guest_open-Granted env p db a keys done =
    let now = now_or env.clock p.now in
    let P = Granted env p now db in
    if-Yields P (is_bad_identity p.token_hash p.user || not (after p.lease_until now))
      (raise invalid_input) (transaction (claim_open_body env p now)) db (λ _ b e. cc)
      (λ _. transaction-Yields P (claim_open_body env p now) db (body-Granted env p now db keys)) a
      done

claim_guest_open-Distinct :
    (env : Env) (p : GuestClaimOpenParams) (db : Db) (x : GuestRequestRow)
    → Distinct request_key db.guest_requests
    → request_by_token p.token_hash db ≡ some x
    → Distinct request_key (claim_guest_open env p db).1.guest_requests
unfolding Traced request_by_token
claim_guest_open-Distinct env p db x keys found =
    let row =
      find_where-find request_key (λ (r : GuestRequestRow). r.token_hash == p.token_hash)
        db.guest_requests x keys found in
    (claim_open-Traced x.id x env p db (keys, (x, row, Led-refl x))).0

not_openable :
    (now lease : Time) (s : GuestState) (o : Option Time)
    → s ≡ opening
    → o ≡ some lease
    → now < lease
    → (s ≡ ready) ⊎ ((s ≡ opening) × ((t : Time) → o ≡ some t → t ≤ now))
    → ⊥
not_openable now lease s o opens leased early (inl waits) = ground arith
not_openable now lease s o opens leased early (inr (_, lapsed)) = omega (arith, lapsed lease leased)

-- Where request keys are distinct, while the lease of a ClaimGuestOpen that returned a reservation runs,
-- a further ClaimGuestOpen with the same token, whoever its user is, returns none.
pub claim_guest_open-excludes :
    (env later : Env) (p q : GuestClaimOpenParams) (db : Db) (a b : GuestOpenReservation)
    → Distinct request_key db.guest_requests
    → (claim_guest_open env p db).0 ≡ ok a
    → q.token_hash ≡ p.token_hash
    → now_or later.clock q.now < p.lease_until
    → (claim_guest_open later q (claim_guest_open env p db).1).0 ≢ ok b
claim_guest_open-excludes env later p q db a b keys first token early second =
    let g = claim_guest_open-Granted env p db a keys first in
    let mid = (claim_guest_open env p db).1 in
    let h =
      claim_guest_open-Granted later q mid b
        (claim_guest_open-Distinct env p db g.request keys g.found) second in
    let same : h.request ≡ g.left =
      some_same h.request g.left
        (sym h.found ∙ (ap (λ t. request_by_token t mid) token ∙ g.reserved)) in
    not_openable (now_or later.clock q.now) p.lease_until h.request.state
      h.request.opening_lease_until (ap (λ r. r.state) same ∙ g.in_opening)
      (ap (λ r. r.opening_lease_until) same ∙ g.leased) early h.openable
