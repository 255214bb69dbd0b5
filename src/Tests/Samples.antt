-- ===== src/Tests/Samples.antt =====
-- A database with one published one-time text whisper, and calls on it.
use secretmediabot.Base.{Bool, pos, negsuc, true, none, some, [], ◌∷◌, Bytes}
use secretmediabot.Domain.Status.{active, pending, published}
use secretmediabot.Domain.Content.{PayloadKind}
use secretmediabot.Repository.Rows.{
  WhisperRow, EncryptedTextPayloadRow, TextPurpose, EphemeralDeleteJobRow, Db,
}
use secretmediabot.Repository.Mapping.{Env}
use secretmediabot.Repository.Opening.Params.{ReserveOpenParams, CompleteOpenParams}
use secretmediabot.Repository.Cleanup.{Locks, CleanupParams}

abbrev pub eight : Bytes → Bytes
eight rest = 1 ∷ 2 ∷ 3 ∷ 4 ∷ 5 ∷ 6 ∷ 7 ∷ 8 ∷ rest

-- A byte string of the size of a SHA-256 hash.
abbrev pub hash : Bytes
hash = eight (eight (eight (eight [])))

abbrev pub sample_env : Env
sample_env = record { clock = 50; uuid_text = λ _. []; lower_beyond = λ c. c }

abbrev pub sample_row : WhisperRow
sample_row = record {
  id = 1;
  draft_id = 2;
  open_token_hash = hash;
  sender_id = pos 10;
  recipient_id = pos 20;
  source_chat_id = negsuc 99;
  source_thread_id = none;
  payload_kind = PayloadKind.text;
  media_provider = none;
  media_type = none;
  telegram_file_id = none;
  telegram_file_unique_id = none;
  one_time = true;
  protect_content = true;
  status = active;
  publish_state = published;
  publish_attempt_count = 1;
  next_publish_attempt_at = 10;
  publish_lease_until = none;
  last_publish_error = none;
  public_message_id = some (pos 7);
  published_at = some 20;
  opening_callback_query_id = none;
  opening_reserved_at = none;
  opening_lease_until = none;
  opened_at = none;
  revoked_at = none;
  created_at = 10;
  updated_at = 20;
  expires_at = 1000;
  retention_delete_at = 2000;
}

abbrev pub sample_text : EncryptedTextPayloadRow
sample_text = record {
  id = 5;
  whisper_id = 1;
  purpose = TextPurpose.text;
  encryption_algorithm = "AES-256-GCM";
  encryption_key_id = "k1";
  nonce = [];
  ciphertext = [];
  ciphertext_sha256 = hash;
  plaintext_size_bytes = pos 3;
  created_at = 10;
  retention_delete_at = 2000;
}

abbrev pub sample_job : EphemeralDeleteJobRow
sample_job = record {
  id = 1;
  chat_id = negsuc 99;
  recipient_id = pos 20;
  ephemeral_message_id = pos 70;
  whisper_id = none;
  delete_after = 30;
  next_attempt_at = 30;
  attempt_count = 0;
  lease_until = none;
  last_error = none;
  deleted_at = none;
  created_at = 20;
  updated_at = 20;
}

abbrev pub sample_db : Db
sample_db = record {
  drafts = [];
  whispers = sample_row ∷ [];
  blobs = [];
  texts = sample_text ∷ [];
  callbacks = [];
  events = [];
  jobs = sample_job ∷ [];
  updates = [];
  next_event_id = 1;
  next_job_id = 2;
  users = [];
  chats = [];
  members = [];
  guest_requests = [];
  guest_payloads = [];
  guest_jobs = [];
  next_guest_job_id = 1;
}

abbrev pub sample_reserve : ReserveOpenParams
sample_reserve = record {
  open_token_hash = hash;
  telegram_user_id = pos 20;
  callback_query_id = "tap";
  now = 100;
  lease_until = 160;
}

abbrev pub sample_complete : CompleteOpenParams
sample_complete = record {
  whisper_id = 1;
  event_id = 1;
  callback_query_id = "tap";
  telegram_message_id = none;
  ephemeral_message_id = some (pos 77);
  delete_at = 200;
  now = 110;
}

abbrev pub no_locks : Locks
no_locks = record {
  draft = λ _. Bool.false;
  whisper = λ _. Bool.false;
  update = λ _. Bool.false;
  job = λ _. Bool.false;
}

abbrev pub sample_cleanup : CleanupParams
sample_cleanup = record { now = 170; processed_updates_before = 5; batch_size = pos 0 }

-- A second job, due later.
abbrev pub later_job : EphemeralDeleteJobRow
later_job = record sample_job { id = 2; next_attempt_at = 40; ephemeral_message_id = pos 71 }

abbrev pub jobs_db : Db
jobs_db = record sample_db { jobs = sample_job ∷ later_job ∷ []; next_job_id = 3 }

-- A whisper that waits for its publication.
abbrev pub waiting_row : WhisperRow
waiting_row = record sample_row { publish_state = pending; publish_attempt_count = 0 }

abbrev pub waiting_db : Db
waiting_db = record sample_db { whispers = waiting_row ∷ [] }
