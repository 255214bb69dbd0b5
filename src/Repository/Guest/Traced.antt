-- ===== src/Repository/Guest/Traced.antt =====
-- What the shorter calls of internal/repository/guest.go do to one request.
pub mod Finalize
pub mod Opening
pub mod Create
use secretmediabot.Base.{
  ℤ, ◌≡◌, refl, sym, ap, ◌∙◌, inl, inr, Bool, true, ◌&&◌, ◌||◌, not, Option, none, some, Uuid, Time,
  Bytes, Text, ◌==◌, nat_eq, int_eq, list_eq, string_eq, arith, Bool-cases, after, is_positive,
  nil_uuid, length, sha256_size, count,
}
use secretmediabot.Base.Table.Laws.{find_where-find}
use secretmediabot.Domain.Content.{PayloadKind}
use secretmediabot.Domain.User.{User}
use secretmediabot.Repository.Errors.{
  Result, ok, err, invalid_input, not_found, unauthorized, conflict, lease_lost, already_opened,
  not_active, guest_opening_in_progress,
}
use secretmediabot.Repository.Errors
use secretmediabot.Repository.Rows.{
  GuestState, awaiting_secret, ingesting_secret, ready, opening, GuestRequestRow, Db,
}
use secretmediabot.Repository.Tx.{
  pure, raise, require, now_or, Keeps, bind-Keeps, if-Keeps, require-Keeps, require_keeps,
  bind_keeps, ◌>>=◌, ◌>>◌,
}
use secretmediabot.Repository.Mapping.{Env}
use secretmediabot.Repository.Identity.{upsert_user}
use secretmediabot.Repository.Guest.Closing.{
  holds_opening, opened_request, guest_job, insert_guest_job, queue_guest_job, queue_guest_deletion,
  complete_guest_body, complete_guest_open, returned_request, fail_guest_open, is_guest_active_of,
  cancelled_request, cancel_if, cancel_guest_request, cancel_guest_request_by_id,
}
use secretmediabot.Repository.Guest.Params.{
  GuestClaimIngestParams, GuestReleaseIngestParams, GuestFinalizeParams, GuestCompleteOpenParams,
  GuestFailOpenParams, CancelGuestParams, CancelGuestRequestByIdParams,
}
use secretmediabot.Repository.Guest.{
  request_key, find_request, request_by_token, update_request, is_guest_ingestable,
  ingesting_request, claim_guest_row, claim_guest_ingest, holds_guest_ingest, awaiting_request,
  release_guest_ingest, ready_request,
}
use secretmediabot.Repository.Guest.Values.{guest_state_eq, to_guest_request}
use secretmediabot.Repository.Guest.Claim.{may_be_target}
use secretmediabot.Repository.Guest.Moves.{
  ◌⇢◌, ingest, give_back, prepare, release, withdraw, withdraw_ingest, withdraw_ready, Step,
  KeepsTarget, Traced, update-Traced, map-Traced,
}

-- The rows before and after the statements.
ingesting-Step :
    (p : GuestClaimIngestParams) (now : Time) (x : GuestRequestRow)
    → is_guest_ingestable p now x ≡ true
    → Step x (ingesting_request now p.lease_until x)
ingesting-Step p now x pass = record {
  same_key = refl;
  same_sender = refl;
  same_target = λ t h. h;
  moves = elim (Bool-cases (x.state == awaiting_secret)) [
    | inl waits ↦ inr (rw ((guest_state_eq.beq_iff x.state awaiting_secret).0 waits) ingest)
    | inr other ↦
        inl ((guest_state_eq.beq_iff x.state ingesting_secret).0 (ground (arith, pass, other)))
  ];
}

-- A change of the state and of time stamps only.
pub edge-Step :
    (x y : GuestRequestRow) (s : GuestState)
    → y.id ≡ x.id
    → y.sender_id ≡ x.sender_id
    → y.target_user_id ≡ x.target_user_id
    → (x.state == s) ≡ true
    → s ⇢ y.state
    → Step x y
edge-Step x y s keys senders targets held e = record {
  same_key = keys;
  same_sender = senders;
  same_target = λ t h. targets ∙ h;
  moves = inr (rw ((guest_state_eq.beq_iff x.state s).0 held) e);
}

cancelled-Step :
    (now : Time) (x : GuestRequestRow)
    → (x.state == awaiting_secret || x.state == ingesting_secret || x.state == ready) ≡ true
    → Step x (cancelled_request now x)
cancelled-Step now x held = elim (Bool-cases (x.state == awaiting_secret)) [
  | inl waits ↦ edge-Step x (cancelled_request now x) awaiting_secret refl refl refl waits withdraw
  | inr busy ↦ elim (Bool-cases (x.state == ingesting_secret)) [
    | inl ingests ↦
        edge-Step x (cancelled_request now x) ingesting_secret refl refl refl ingests
          withdraw_ingest
    | inr done ↦
        edge-Step x (cancelled_request now x) ready refl refl refl
          (ground (arith, held, busy, done)) withdraw_ready
  ]
]

-- Binding the ID of a user who may be the target.
pub target-kept :
    (env : Env) (u : User) (o : Option ℤ) (name : Text)
    → may_be_target env u o name ≡ true
    → KeepsTarget o (some u.telegram_user_id)
unfolding may_be_target
target-kept env u none name h t e = cc
target-kept env u (some s) name h t e =
    ap some (sym ((int_eq.beq_iff s u.telegram_user_id).0 h)) ∙ e

pub ready_request-Step :
    (p : GuestFinalizeParams) (now : Time) (kind : PayloadKind) (x : GuestRequestRow)
    → (x.state == ingesting_secret) ≡ true
    → Step x (ready_request p now kind x)
unfolding ready_request
ready_request-Step p now PayloadKind.media x held =
    edge-Step x _ ingesting_secret refl refl refl held prepare
ready_request-Step p now PayloadKind.text x held =
    edge-Step x _ ingesting_secret refl refl refl held prepare
ready_request-Step p now (PayloadKind.other s) x held =
    edge-Step x _ ingesting_secret refl refl refl held prepare

module _ (id : Uuid) (r : GuestRequestRow) where
  abbrev T : Db → Type 0
  T db = Traced id r db

  pub token-found :
      (hash : Bytes) (db : Db) (x : GuestRequestRow)
      → T db
      → request_by_token hash db ≡ some x
      → find_request x.id db ≡ some x
  unfolding Traced request_by_token
  token-found hash db x h found =
      find_where-find request_key (λ (y : GuestRequestRow). y.token_hash == hash) db.guest_requests
        x h.0 found

  pub upsert_user-Traced : (u : User) (now : Time) → Keeps T (upsert_user u now)
  unfolding upsert_user Traced
  upsert_user-Traced u now db h = h

  claim_guest_row-Traced :
      (p : GuestClaimIngestParams) (now : Time) (o : Option GuestRequestRow) (db : Db)
      → T db
      → T (claim_guest_row p now o db).1
  unfolding claim_guest_row
  claim_guest_row-Traced p now none db h = h
  claim_guest_row-Traced p now (some x) db h =
      let step = ingesting_request now p.lease_until in
      let moved =
        update-Traced id r x.id (is_guest_ingestable p now) step db (λ y. refl)
          (λ y _ pass. ingesting-Step p now y pass) h in
      bind_keeps T (update_request x.id (is_guest_ingestable p now) step)
        (λ hit. require hit not_found >> pure (to_guest_request (step x))) db moved
        (λ hit _.
          require_keeps T hit not_found (pure (to_guest_request (step x))) _ moved (λ _. moved))

  pub claim_guest_ingest-Traced :
      (env : Env) (p : GuestClaimIngestParams) → Keeps T (claim_guest_ingest env p)
  unfolding claim_guest_ingest
  claim_guest_ingest-Traced env p =
      let now = now_or env.clock p.now in
      if-Keeps T
        (not (length p.token_hash == sha256_size)
          || not (is_positive p.sender_id)
          || not (after p.lease_until now))
        (raise invalid_input) (λ db. claim_guest_row p now (request_by_token p.token_hash db) db)
        (λ db h. h) (λ db h. claim_guest_row-Traced p now _ db h)

  -- An update of one request, and the test that it changed it.
  pub checked-Traced :
      (k : Uuid) (p : GuestRequestRow → Bool) (f : GuestRequestRow → GuestRequestRow)
      (e : Errors.Error)
      → ((x : GuestRequestRow) → (f x).id ≡ x.id)
      → ((x : GuestRequestRow) → p x ≡ true → Step x (f x))
      → Keeps T (update_request k p f >>= λ hit. require hit e)
  checked-Traced k p f e keys steps =
      bind-Keeps T (update_request k p f) (λ hit. require hit e)
        (λ db h. update-Traced id r k p f db keys (λ x _ pass. steps x pass) h)
        (λ hit. require-Keeps T hit e)

  pub release-Traced :
      (env : Env) (p : GuestReleaseIngestParams) → Keeps T (release_guest_ingest env p)
  unfolding release_guest_ingest
  release-Traced env p =
      checked-Traced p.request_id (holds_guest_ingest p.sender_id p.expected_lease_until)
        (awaiting_request (now_or env.clock p.now)) lease_lost (λ x. refl)
        (λ x pass. edge-Step x _ ingesting_secret refl refl refl (ground (arith, pass)) give_back)

  pub fail-Traced : (env : Env) (p : GuestFailOpenParams) → Keeps T (fail_guest_open env p)
  unfolding fail_guest_open
  fail-Traced env p =
      checked-Traced p.request_id (holds_opening p.expected_lease_until)
        (returned_request (now_or env.clock p.now)) lease_lost (λ x. refl)
        (λ x pass. edge-Step x _ opening refl refl refl (ground (arith, pass)) release)

  pub cancel_by_id-Traced :
      (env : Env) (p : CancelGuestRequestByIdParams) → Keeps T (cancel_guest_request_by_id env p)
  unfolding cancel_guest_request_by_id
  cancel_by_id-Traced env p =
      let now = now_or env.clock p.now in
      let test = λ (x : GuestRequestRow).
        x.sender_id == p.sender_id && (x.state == awaiting_secret || x.state == ready) in
      if-Keeps T (p.request_id == nil_uuid || not (is_positive p.sender_id)) (raise invalid_input)
        (update_request p.request_id test (cancelled_request now) >>= λ hit. require hit not_found)
        (λ db h. h)
        (checked-Traced p.request_id test (cancelled_request now) not_found (λ x. refl)
          (λ x pass. cancelled-Step now x (ground (arith, pass))))

  cancel_if-Step :
      (p : GuestRequestRow → Bool) (now : Time) (x : GuestRequestRow)
      → ((y : GuestRequestRow) → p y ≡ true → Step y (cancelled_request now y))
      → Step x (cancel_if p now x)
  cancel_if-Step p now x steps = elim (Bool-cases (p x)) [
    | inl hit ↦ rw hit (steps x hit)
    | inr miss ↦
        rw miss
          (record { same_key = refl; same_sender = refl; same_target = λ t h. h; moves = inl refl })
  ]

  pub cancel-Traced : (env : Env) (p : CancelGuestParams) → Keeps T (cancel_guest_request env p)
  unfolding cancel_guest_request
  cancel-Traced env p db h =
      let now = now_or env.clock p.now in
      let test = is_guest_active_of p.sender_id now in
      let mapped =
        map-Traced id r (cancel_if test now) db
          (λ x. cancel_if-Step test now x (λ y pass. cancelled-Step now y (ground (arith, pass))))
          h in
      elim (Bool-cases (is_positive p.sender_id)) [
        | inr bad ↦ rw bad h
        | inl good ↦ elim (Bool-cases (count test db.guest_requests == 0)) [
          | inl nothing ↦ rw (good, nothing) h
          | inr some_rows ↦ rw (good, some_rows) mapped
        ]
      ]
