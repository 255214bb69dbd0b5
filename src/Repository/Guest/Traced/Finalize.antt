-- ===== src/Repository/Guest/Traced/Finalize.antt =====
-- What `FinalizeGuest` of internal/repository/guest.go does to one request.
use secretmediabot.Base.{
  ◌≡◌, refl, inl, inr, ◌&&◌, ◌||◌, not, Option, none, some, Uuid, Time, ◌==◌, nat_eq, int_eq,
  list_eq, string_eq, arith, Bool-cases, after, is_positive, is_zero_time, nil_uuid,
}
use secretmediabot.Domain.Content.{PayloadKind}
use secretmediabot.Repository.Errors.{invalid_input, lease_lost}
use secretmediabot.Repository.Rows.{GuestRequestRow, GuestPayloadRow, Db}
use secretmediabot.Repository.Tx.{
  raise, transaction, now_or, Keeps, bind-Keeps, if-Keeps, transaction-Keeps, take_keeps,
  require_keeps, ◌>>◌,
}
use secretmediabot.Repository.Mapping.{Env}
use secretmediabot.Repository.Guest.Params.{GuestFinalizeParams}
use secretmediabot.Repository.Guest.{
  find_request, insert_guest_payload, payload_clashes, put_guest_payload, store_guest_payloads,
  ready_request, holds_request, make_ready, is_bad_cardinality, finalize_guest_found,
  finalize_guest_body, finalize_guest, is_text_or_media,
}
use secretmediabot.Repository.Guest.Values.{
  GuestPayload, guest_state_eq, is_bad_payload, guest_payload_row_from_domain,
}
use secretmediabot.Repository.Guest.Moves.{Traced, update-Traced}
use secretmediabot.Repository.Guest.Traced.{ready_request-Step}

ready_request-key :
    (p : GuestFinalizeParams) (now : Time) (kind : PayloadKind) (x : GuestRequestRow)
    → (ready_request p now kind x).id ≡ x.id
unfolding ready_request
ready_request-key p now PayloadKind.media x = refl
ready_request-key p now PayloadKind.text x = refl
ready_request-key p now (PayloadKind.other s) x = refl

module _ (id : Uuid) (r : GuestRequestRow) where
  abbrev T : Db → Type 0
  T db = Traced id r db

  insert_guest_payload-Traced : (x : GuestPayloadRow) → Keeps T (insert_guest_payload x)
  unfolding insert_guest_payload Traced
  insert_guest_payload-Traced x db h = elim (Bool-cases (payload_clashes x db)) [
    | inl clash ↦ rw clash h
    | inr free ↦ rw free h
  ]

  pub put_guest_payload-Traced :
      (env : Env) (now : Time) (o : Option GuestPayload) → Keeps T (put_guest_payload env now o)
  unfolding put_guest_payload
  put_guest_payload-Traced env now none = λ db h. h
  put_guest_payload-Traced env now (some i) =
      if-Keeps T (is_bad_payload now i) (raise invalid_input)
        (insert_guest_payload (guest_payload_row_from_domain env.clock i)) (λ db h. h)
        (insert_guest_payload-Traced (guest_payload_row_from_domain env.clock i))

  store_guest_payloads-Traced :
      (env : Env) (p : GuestFinalizeParams) (now : Time) → Keeps T (store_guest_payloads env p now)
  unfolding store_guest_payloads
  store_guest_payloads-Traced env p now =
      bind-Keeps T (put_guest_payload env now p.text)
        (λ _. put_guest_payload env now p.media >> put_guest_payload env now p.caption)
        (put_guest_payload-Traced env now p.text)
        (λ _.
          bind-Keeps T (put_guest_payload env now p.media)
            (λ _. put_guest_payload env now p.caption) (put_guest_payload-Traced env now p.media)
            (λ _. put_guest_payload-Traced env now p.caption))

  make_ready-Traced : (p : GuestFinalizeParams) (now : Time) → Keeps T (make_ready p now)
  unfolding make_ready
  make_ready-Traced p now db h =
      update-Traced id r p.request_id (holds_request p.expected_lease_until)
        (ready_request p now p.kind) db (ready_request-key p now p.kind)
        (λ x _ pass. ready_request-Step p now p.kind x (ground (arith, pass))) h

  pub finalize_guest-Traced : (env : Env) (p : GuestFinalizeParams) → Keeps T (finalize_guest env p)
  unfolding finalize_guest finalize_guest_body finalize_guest_found
  finalize_guest-Traced env p =
      let now = now_or env.clock p.now in
      if-Keeps T
        (p.request_id == nil_uuid
          || not (is_positive p.sender_id)
          || is_zero_time p.expected_lease_until
          || not (is_text_or_media p.kind))
        (raise invalid_input) (transaction (finalize_guest_body env p now)) (λ db h. h)
        (transaction-Keeps T (finalize_guest_body env p now) (λ db h.
          take_keeps T (find_request p.request_id) (finalize_guest_found env p now) db h (λ x _.
            require_keeps T
              (x.sender_id == p.sender_id
                && holds_request p.expected_lease_until x
                && after x.expires_at now)
              lease_lost _ db h
              (λ _.
                require_keeps T (not (is_bad_cardinality p p.kind)) invalid_input
                  (store_guest_payloads env p now >> make_ready p now) db h
                  (λ _.
                    bind-Keeps T (store_guest_payloads env p now) (λ _. make_ready p now)
                      (store_guest_payloads-Traced env p now) (λ _. make_ready-Traced p now) db
                      h)))))
