-- ===== src/Repository/Guest/Path.antt =====
-- Sequences of the calls on one guest request of internal/repository/guest.go.
use secretmediabot.Base.{
  Text, Bytes, ℤ, ◌≡◌, ◌⊎◌, some, List, [], ◌∷◌, Uuid, Time, nat_eq, int_eq, list_eq, string_eq,
}
use secretmediabot.Base.Table.{Distinct}
use secretmediabot.Repository.Rows.{opened, cancelled, GuestRequestRow, Db}
use secretmediabot.Repository.Mapping.{Env}
use secretmediabot.Repository.Guest.Closing.{
  complete_guest_open, fail_guest_open, cancel_guest_request, cancel_guest_request_by_id,
}
use secretmediabot.Repository.Guest.Params.{
  GuestClaimIngestParams, GuestReleaseIngestParams, GuestFinalizeParams, GuestCompleteOpenParams,
  GuestFailOpenParams, CancelGuestParams, CancelGuestRequestByIdParams,
}
use secretmediabot.Repository.Guest.{
  request_key, find_request, claim_guest_ingest, release_guest_ingest, finalize_guest,
}
use secretmediabot.Repository.Guest.Values.{guest_state_eq}
use secretmediabot.Repository.Guest.Claim.{
  GuestClaimTargetParams, GuestClaimOpenParams, claim_guest_target, claim_guest_open,
}
use secretmediabot.Repository.Guest.Moves.{GuestPath, Led-refl, Traced, path-final}
use secretmediabot.Repository.Guest.Traced.{
  claim_guest_ingest-Traced, release-Traced, fail-Traced, cancel_by_id-Traced, cancel-Traced,
}
use secretmediabot.Repository.Guest.Create.{
  GuestCreateParams, create_guest_request, mark_guest_envelope,
}
use secretmediabot.Repository.Guest.Traced.Finalize.{finalize_guest-Traced}
use secretmediabot.Repository.Guest.Traced.Opening.{
  claim_target-Traced, claim_open-Traced, complete_guest_open-Traced,
}
use secretmediabot.Repository.Guest.Traced.Create.{create-Traced, envelope-Traced}

pub data GuestCall : Type 0 where
  create : Env → GuestCreateParams → GuestCall
  envelope : Env → Bytes → Text → Time → GuestCall
  claim_ingest : Env → GuestClaimIngestParams → GuestCall
  release_ingest : Env → GuestReleaseIngestParams → GuestCall
  finalize : Env → GuestFinalizeParams → GuestCall
  claim_target : Env → GuestClaimTargetParams → GuestCall
  claim_open : Env → GuestClaimOpenParams → GuestCall
  complete_open : Env → GuestCompleteOpenParams → GuestCall
  fail_open : Env → GuestFailOpenParams → GuestCall
  cancel : Env → CancelGuestParams → GuestCall
  cancel_by_id : Env → CancelGuestRequestByIdParams → GuestCall

unfoldable pub run_guest_call : GuestCall → Db → Db
run_guest_call (create env p) db = (create_guest_request env p db).1
run_guest_call (envelope env hash message now) db = (mark_guest_envelope env hash message now db).1
run_guest_call (claim_ingest env p) db = (claim_guest_ingest env p db).1
run_guest_call (release_ingest env p) db = (release_guest_ingest env p db).1
run_guest_call (finalize env p) db = (finalize_guest env p db).1
run_guest_call (claim_target env p) db = (claim_guest_target env p db).1
run_guest_call (claim_open env p) db = (claim_guest_open env p db).1
run_guest_call (complete_open env p) db = (complete_guest_open env p db).1
run_guest_call (fail_open env p) db = (fail_guest_open env p db).1
run_guest_call (cancel env p) db = (cancel_guest_request env p db).1
run_guest_call (cancel_by_id env p) db = (cancel_guest_request_by_id env p db).1

unfoldable pub run_guest_calls : List GuestCall → Db → Db
unfolding run_guest_call
run_guest_calls [] db = db
run_guest_calls (c ∷ cs) db = run_guest_calls cs (run_guest_call c db)

module _ (id : Uuid) (r : GuestRequestRow) where
  abbrev T : Db → Type 0
  T db = Traced id r db

  run_guest_call-Traced : (c : GuestCall) (db : Db) → T db → T (run_guest_call c db)
  unfolding run_guest_call
  run_guest_call-Traced (create env p) = create-Traced id r env p
  run_guest_call-Traced (envelope env hash message now) = envelope-Traced id r env hash message now
  run_guest_call-Traced (claim_ingest env p) = claim_guest_ingest-Traced id r env p
  run_guest_call-Traced (release_ingest env p) = release-Traced id r env p
  run_guest_call-Traced (finalize env p) = finalize_guest-Traced id r env p
  run_guest_call-Traced (claim_target env p) = claim_target-Traced id r env p
  run_guest_call-Traced (claim_open env p) = claim_open-Traced id r env p
  run_guest_call-Traced (complete_open env p) = complete_guest_open-Traced id r env p
  run_guest_call-Traced (fail_open env p) = fail-Traced id r env p
  run_guest_call-Traced (cancel env p) = cancel-Traced id r env p
  run_guest_call-Traced (cancel_by_id env p) = cancel_by_id-Traced id r env p

  run_guest_calls-Traced : (cs : List GuestCall) (db : Db) → T db → T (run_guest_calls cs db)
  unfolding run_guest_calls
  run_guest_calls-Traced [] db h = h
  run_guest_calls-Traced (c ∷ cs) db h =
      run_guest_calls-Traced cs (run_guest_call c db) (run_guest_call-Traced c db h)

-- Where request keys are distinct, any sequence of CreateGuestRequest, MarkGuestEnvelope,
-- ClaimGuestIngest, ReleaseGuestIngest, FinalizeGuest, ClaimGuestTarget, ClaimGuestOpen, CompleteGuestOpen, FailGuestOpen,
-- CancelGuestRequest and CancelGuestRequestByID calls leaves a request in its table with its
-- sender; a target that was bound is still bound to the same user; its state has moved only along
-- the edges of ◌⇢◌; and an opened or cancelled request is still in that state.
pub guest_path :
    (cs : List GuestCall) (db : Db) (id : Uuid) (r : GuestRequestRow)
    → Distinct request_key db.guest_requests
    → find_request id db ≡ some r
    → (x : GuestRequestRow) × (find_request id (run_guest_calls cs db) ≡ some x)
      × (x.sender_id ≡ r.sender_id)
      × ((t : ℤ) → r.target_user_id ≡ some t → x.target_user_id ≡ some t)
      × GuestPath r.state x.state
      × ((r.state ≡ opened) ⊎ (r.state ≡ cancelled) → x.state ≡ r.state)
unfolding Traced
guest_path cs db id r keys found =
    let (x, kept, led) = (run_guest_calls-Traced id r cs db (keys, (r, found, Led-refl r))).1 in
    (x, kept, led.sender_kept, led.target_kept, led.path, path-final led.path)
