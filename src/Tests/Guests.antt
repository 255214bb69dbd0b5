-- ===== src/Tests/Guests.antt =====
-- Observed users, and a guest request from its ingest to its cancellation.
use secretmediabot.Base.{
  Bool, ℕ, Time, ℤ, ◌≡◌, refl, pos, negsuc, true, false, Option, none, some, [], ◌∷◌, List, ◌⊎◌,
  nat_eq, int_eq, list_eq, string_eq, list_beq, map, Text,
}
use secretmediabot.Base.Table.{find, find_where, modify, matches, Distinct}
use secretmediabot.Domain.User.{User, normalize_username}
use secretmediabot.Repository.Errors.{ok}
use secretmediabot.Repository.Rows.{
  UserRow, GuestState, awaiting_secret, ready, opened, cancelled, GuestRequestRow,
  GuestPrivateDeleteJobRow, Db,
}
use secretmediabot.Repository.Identity.{user_key}
use secretmediabot.Repository.Identity.Merge.{
  Later, Observation, a_user, run_observations, run_observations-Later,
}
use secretmediabot.Repository.Guest.{request_key, find_request}
use secretmediabot.Repository.Guest.Claim.{GuestClaimTargetParams}
use secretmediabot.Repository.Guest.Moves.{GuestPath}
use secretmediabot.Repository.Guest.Path.{
  GuestCall, claim_ingest, claim_target, cancel, run_guest_calls, guest_path,
}
use secretmediabot.Repository.Guest.Jobs.{guest_job_key}
use secretmediabot.Repository.Guest.Jobs.Deleted.{
  JobCall, claim_due, mark_deleted, run_job_calls, deleted_job_final,
}
use secretmediabot.Domain.Content.{PayloadKind}
use secretmediabot.Repository.Rows.{GuestPayloadRow}
use secretmediabot.Repository.Guest.Values.{to_guest_request, guest_to_stored}
use secretmediabot.Repository.Guest.Claim.{
  GuestClaimOpenParams, GuestOpenReservation, reserved_request, claim_guest_open,
}
use secretmediabot.Repository.Guest.Granted.{
  Granted, claim_guest_open-Granted, claim_guest_open-excludes,
}
use secretmediabot.Base.{◌≢◌, ◌<◌, arith}
use secretmediabot.Tests.Samples.{sample_env, sample_db, hash}

abbrev ann : UserRow
ann = record {
  telegram_user_id = pos 20;
  username = b'A' ∷ b'n' ∷ b'n' ∷ [];
  first_name = b'A' ∷ [];
  last_name = [];
  is_bot = false;
  language_code = [];
  has_started_private_chat = true;
  first_seen_at = 5;
  last_seen_at = 8;
  updated_at = 8;
}

abbrev ann_again : User
ann_again = record {
  telegram_user_id = pos 20;
  username = [];
  first_name = b'B' ∷ [];
  last_name = [];
  language_code = [];
  is_bot = false;
  has_started_private_chat = false;
  first_seen_at = 0;
  last_seen_at = 0;
  updated_at = 0;
}

abbrev observed_db : Db
observed_db = record sample_db {
  users = ann ∷ [];
  members =
      record { chat_id = negsuc 99; user_id = pos 20; first_seen_at = 5; last_seen_at = 8 } ∷ [];
}

-- The argument of a command, with its at sign and a capital.
abbrev typed_name : Text
typed_name = b'@' ∷ b'a' ∷ b'N' ∷ b'n' ∷ []

abbrev observations : List Observation
observations = a_user sample_env ann_again 3 ∷ a_user sample_env ann_again 40 ∷ []

known_ann : find user_key (pos 20) observed_db.users ≡ some ann
unfolding find
known_ann = refl

run_observations-Later_example :
    (s : UserRow) × (find user_key (pos 20) (run_observations observations observed_db).users
      ≡ some s)
    × Later ann s
run_observations-Later_example =
    run_observations-Later observations observed_db (pos 20) ann known_ann

abbrev sample_request : GuestRequestRow
sample_request = record {
  id = 60;
  token_hash = hash;
  sender_id = pos 10;
  target_user_id = none;
  target_username = b'a' ∷ b'n' ∷ b'n' ∷ [];
  source_chat_id = none;
  source_thread_id = none;
  source_message_id = none;
  guest_query_id = some (b'q' ∷ []);
  inline_query_id = none;
  inline_message_id = [];
  state = awaiting_secret;
  payload_kind = none;
  media_type = none;
  telegram_file_id = none;
  telegram_file_unique_id = none;
  telegram_content_type = none;
  target_claimed_at = none;
  ingest_started_at = none;
  ingest_lease_until = none;
  secret_ready_at = none;
  opening_reserved_at = none;
  opening_lease_until = none;
  opened_at = none;
  delivery_message_id = none;
  created_at = 10;
  updated_at = 10;
  expires_at = 500;
  retention_delete_at = 900;
}

abbrev guest_db : Db
guest_db = record observed_db { guest_requests = sample_request ∷ [] }

abbrev guest_ann : User
guest_ann = record ann_again { username = typed_name }

abbrev guest_calls : List GuestCall
guest_calls =
    claim_target sample_env (record { token_hash = hash; user = guest_ann; now = 60 })
    ∷ claim_ingest sample_env
        (record { token_hash = hash; sender_id = pos 10; now = 70; lease_until = 130 })
    ∷ cancel sample_env (record { sender_id = pos 10; now = 80 })
    ∷ []

one_request : Distinct request_key guest_db.guest_requests
unfolding find
one_request = (refl, tt)

found_request : find_request 60 guest_db ≡ some sample_request
unfolding find
found_request = refl

abbrev outcome : GuestRequestRow → GuestState × Option ℤ
outcome r = (r.state, r.target_user_id)

-- The calls bind the target and end in the cancelled state.
guest_calls_run :
    map outcome (run_guest_calls guest_calls guest_db).guest_requests
    ≡ (cancelled, some (pos 20)) ∷ []
unfolding run_guest_calls secretmediabot.Repository.Guest.Closing.cancel_guest_request
    secretmediabot.Repository.Guest.claim_guest_ingest find_where
    secretmediabot.Repository.Guest.Claim.claim_guest_target list_beq normalize_username modify
    matches
guest_calls_run = refl

guest_path_example :
    (x : GuestRequestRow) × (find_request 60 (run_guest_calls guest_calls guest_db) ≡ some x)
    × (x.sender_id ≡ pos 10)
    × ((t : ℤ) → none ≡ some t → x.target_user_id ≡ some t)
    × GuestPath awaiting_secret x.state
    × ((awaiting_secret ≡ opened) ⊎ (awaiting_secret ≡ cancelled) → x.state ≡ awaiting_secret)
guest_path_example = guest_path guest_calls guest_db 60 sample_request one_request found_request

abbrev done_job : GuestPrivateDeleteJobRow
done_job = record {
  id = 4;
  request_id = some 60;
  chat_id = pos 20;
  message_id = pos 8;
  delete_after = 30;
  next_attempt_at = 30;
  attempt_count = 1;
  lease_until = none;
  last_error = [];
  deleted_at = some 40;
  created_at = 20;
  updated_at = 40;
}

abbrev due_job : GuestPrivateDeleteJobRow
due_job = record done_job { id = 5; message_id = pos 9; deleted_at = none; attempt_count = 0 }

abbrev jobs_db : Db
jobs_db = record guest_db { guest_jobs = done_job ∷ due_job ∷ []; next_guest_job_id = 6 }

abbrev no_job_locks : ℕ → Bool
no_job_locks id = false

abbrev job_calls : List JobCall
job_calls =
    claim_due sample_env no_job_locks (record { now = 60; lease_until = 90 })
    ∷ mark_deleted sample_env (record {
      job_id = 5;
      expected_lease_until = 90;
      now = 70;
      next_attempt_at = 0;
      error_code = [];
    })
    ∷ claim_due sample_env no_job_locks (record { now = 80; lease_until = 100 })
    ∷ []

two_jobs : Distinct guest_job_key jobs_db.guest_jobs
unfolding find
two_jobs = (refl, (refl, tt))

found_job : find guest_job_key 4 jobs_db.guest_jobs ≡ some done_job
unfolding find
found_job = refl

abbrev deletion : GuestPrivateDeleteJobRow → ℕ × Option Time
deletion j = (j.id, j.deleted_at)

-- The due job is claimed and deleted once.
job_calls_run :
    map deletion (run_job_calls job_calls jobs_db).guest_jobs ≡ (4, some 40) ∷ (5, some 70) ∷ []
unfolding run_job_calls secretmediabot.Repository.Guest.Jobs.claim_due_guest_delete
    secretmediabot.Base.Select.select secretmediabot.Repository.Guest.Jobs.mark_guest_deleted
    matches modify
job_calls_run = refl

deleted_job_final_example :
    find guest_job_key 4 (run_job_calls job_calls jobs_db).guest_jobs ≡ some done_job
deleted_job_final_example =
    deleted_job_final job_calls jobs_db 4 done_job 40 two_jobs found_job refl

abbrev ready_row : GuestRequestRow
ready_row = record sample_request {
  state = ready;
  payload_kind = some PayloadKind.text;
  secret_ready_at = some 50;
}

abbrev secret_row : GuestPayloadRow
secret_row = record {
  id = 70;
  request_id = 60;
  purpose = "text";
  encryption_algorithm = "AES-256-GCM";
  encryption_key_id = "k1";
  nonce = [];
  ciphertext = [];
  ciphertext_sha256 = hash;
  content_type = "text/plain";
  plaintext_size_bytes = pos 3;
  created_at = 50;
  retention_delete_at = 900;
}

abbrev ready_db : Db
ready_db = record observed_db { guest_requests = ready_row ∷ []; guest_payloads = secret_row ∷ [] }

abbrev opening_call : GuestClaimOpenParams
opening_call = record { token_hash = hash; user = guest_ann; now = 60; lease_until = 120 }

abbrev second_call : GuestClaimOpenParams
second_call = record opening_call { now = 100; lease_until = 160 }

abbrev first_reservation : GuestOpenReservation
first_reservation = record {
  request = to_guest_request (reserved_request opening_call 60 ready_row);
  content = record {
    kind = PayloadKind.text;
    text = some (guest_to_stored secret_row);
    media = none;
    caption = none;
  };
}

first_opening : (claim_guest_open sample_env opening_call ready_db).0 ≡ ok first_reservation
unfolding claim_guest_open find_where list_beq normalize_username
first_opening = refl

one_ready : Distinct request_key ready_db.guest_requests
unfolding find
one_ready = (refl, tt)

claim_guest_open-Granted_example :
    Granted sample_env opening_call 60 ready_db
      (claim_guest_open sample_env opening_call ready_db).1
claim_guest_open-Granted_example =
    claim_guest_open-Granted sample_env opening_call ready_db first_reservation one_ready
      first_opening

still_leased : 100 < 120
still_leased = omega arith

claim_guest_open-excludes_example :
    (claim_guest_open sample_env second_call
      (claim_guest_open sample_env opening_call ready_db).1).0
    ≢ ok first_reservation
claim_guest_open-excludes_example =
    claim_guest_open-excludes sample_env sample_env opening_call second_call ready_db
      first_reservation first_reservation one_ready first_opening refl still_leased
