-- ===== src/Tests/Drafts.antt =====
-- Drafts from their creation to their finalization on the sample database.
use secretmediabot.Base.{
  ◌≡◌, ◌≢◌, refl, ap, pos, negsuc, true, false, none, some, [], ◌∷◌, List, Bool, nat_eq, int_eq,
  list_eq, arith, list_beq,
}
use secretmediabot.Base.Table.{find, find_where, modify, matches, Distinct}
use secretmediabot.Base.Select.{latest}
use secretmediabot.Domain.Status.{awaiting_media, active, pending}
use secretmediabot.Domain.Content.{PayloadKind, ContentReference}
use secretmediabot.Domain.Draft.{Draft, validate_draft}
use secretmediabot.Domain.Draft.Laws.{IsValid}
use secretmediabot.Domain.Whisper.{Whisper}
use secretmediabot.Domain.Whisper.Laws as WhisperLaws
use secretmediabot.Repository.Finalize.Moves.{◌↣◌}
use secretmediabot.Base.{◌⊎◌}
use secretmediabot.Repository.Errors.{ok}
use secretmediabot.Repository.Rows.{DraftRow, Db}
use secretmediabot.Repository.Cleanup.{draft_key}
use secretmediabot.Repository.Drafts.{
  CreateDraftParams, ClaimDraftIngestParams, create_draft, created_row, draft_to_domain, find_draft,
  claim_draft_ingest, claim_latest_draft_ingest, ingesting_row,
}
use secretmediabot.Repository.Drafts.Quota.{Created, create_draft-Created}
use secretmediabot.Repository.Drafts.Lease.{claim_draft_ingest-excludes, claim_latest-other}
use secretmediabot.Repository.Finalize.{finalize_draft}
use secretmediabot.Repository.Finalize.Checks.{FinalizeDraftParams, EncryptedBlobInput}
use secretmediabot.Repository.Finalize.Path.{
  DraftCall, claim, finalize, run_draft_call, run_draft_calls, draft_path,
}
use secretmediabot.Repository.Finalize.Success.{Finalized, finalize_draft-Finalized}
use secretmediabot.Tests.Samples.{sample_env, sample_db, hash, eight}

-- A draft of a sender who has no other one.
abbrev new_sample : Draft
new_sample = record {
  id = 30;
  compose_token_hash = hash;
  sender_id = pos 40;
  recipient_id = pos 20;
  source_chat_id = negsuc 99;
  source_thread_id = none;
  source_reply_message_id = none;
  source_command_message_id = none;
  state = awaiting_media;
  created_at = 50;
  updated_at = 50;
  expires_at = 500;
  ingest_started_at = none;
  ingest_lease_until = none;
  completed_at = none;
  cancelled_at = none;
}

abbrev creation : CreateDraftParams
creation = record {
  draft = new_sample;
  compose_token_hash = [];
  source_command_message_id = some (pos 3);
  now = 60;
  max_active_drafts = pos 0;
  recent_whispers_since = 5;
  max_recent_whispers = pos 0;
}

abbrev known : DraftRow → Bool
known d = true

abbrev created_db : Db
created_db = record sample_db { drafts = created_row creation ∷ [] }

created :
    create_draft known sample_env creation sample_db
    ≡ (ok (draft_to_domain (created_row creation)), created_db)
unfolding create_draft list_beq validate_draft find_where
created = refl

create_draft-Created_example :
    IsValid (draft_to_domain (created_row creation))
    × (awaiting_media ≡ awaiting_media)
    × Created creation 60 sample_db (create_draft known sample_env creation sample_db).1
create_draft-Created_example =
    create_draft-Created known sample_env creation sample_db
      (draft_to_domain (created_row creation)) (ap (λ r. r.0) created)

abbrev ingest : ClaimDraftIngestParams
ingest = record { draft_id = 30; sender_id = pos 40; now = 70; lease_until = 130 }

abbrev second_ingest : ClaimDraftIngestParams
second_ingest = record ingest { now = 90; lease_until = 150 }

abbrev ingesting : DraftRow
ingesting = ingesting_row 70 130 (created_row creation)

abbrev ingesting_db : Db
ingesting_db = record sample_db { drafts = ingesting ∷ [] }

claimed :
    claim_draft_ingest sample_env ingest created_db ≡ (ok (draft_to_domain ingesting), ingesting_db)
unfolding claim_draft_ingest find matches modify
claimed = refl

claim_draft_ingest-excludes_example :
    ((e : Draft)
      → (claim_draft_ingest sample_env second_ingest
          (claim_draft_ingest sample_env ingest created_db).1).0
        ≢ ok e)
    × ((claim_draft_ingest sample_env second_ingest
          (claim_draft_ingest sample_env ingest created_db).1).1
        ≡ (claim_draft_ingest sample_env ingest created_db).1)
claim_draft_ingest-excludes_example =
    claim_draft_ingest-excludes sample_env sample_env ingest second_ingest created_db
      (draft_to_domain ingesting) (ap (λ r. r.0) claimed) refl (omega arith)

-- Another draft of the sender, which the latest claim takes while the first is held.
abbrev other_draft : DraftRow
other_draft = record (created_row creation) { id = 31; created_at = 40 }

abbrev two_drafts_db : Db
two_drafts_db = record sample_db { drafts = created_row creation ∷ other_draft ∷ [] }

abbrev taken_draft : Draft
taken_draft = draft_to_domain (ingesting_row 80 140 other_draft)

two_claimed :
    (claim_draft_ingest sample_env ingest two_drafts_db).0 ≡ ok (draft_to_domain ingesting)
unfolding claim_draft_ingest find matches modify
two_claimed = refl

latest_claimed :
    (claim_latest_draft_ingest sample_env
      (λ _. false)
      (pos 40)
      80
      140
      (claim_draft_ingest sample_env ingest two_drafts_db).1).0
    ≡ ok taken_draft
unfolding claim_latest_draft_ingest claim_draft_ingest find latest matches modify
latest_claimed = refl

two_keys : Distinct draft_key two_drafts_db.drafts
unfolding find
two_keys = (refl, (refl, tt))

claim_latest-other_example : taken_draft.id ≢ 30
claim_latest-other_example =
    claim_latest-other sample_env sample_env ingest (λ _. false) (pos 40) 80 140 two_drafts_db
      (draft_to_domain ingesting) taken_draft two_keys two_claimed (omega arith) latest_claimed

abbrev new_whisper_value : Whisper
new_whisper_value = record {
  id = 2;
  draft_id = 30;
  open_token_hash = 9 ∷ eight (eight (eight (2 ∷ 3 ∷ 4 ∷ 5 ∷ 6 ∷ 7 ∷ 8 ∷ [])));
  sender_id = pos 40;
  recipient_id = pos 20;
  source_chat_id = negsuc 99;
  source_thread_id = none;
  content = record {
    kind = PayloadKind.text;
    text_blob_id = some 6;
    media = none;
    caption_blob_id = none;
  };
  one_time = true;
  protect_content = true;
  status = active;
  publish_state = pending;
  public_message_id = none;
  publish_attempt_count = pos 0;
  publish_lease_until = none;
  next_publish_attempt_at = 100;
  last_publish_error = [];
  opening_callback_query_id = "";
  opening_reserved_at = none;
  opening_lease_until = none;
  created_at = 100;
  updated_at = 100;
  published_at = none;
  expires_at = 1000;
  opened_at = none;
  revoked_at = none;
  content_retain_until = some 900;
  metadata_retain_until = some 900;
  content_deleted_at = none;
}

abbrev sealed_text : EncryptedBlobInput
sealed_text = record {
  id = 6;
  payload = record {
    key_id = "k1";
    nonce = 1 ∷ 2 ∷ 3 ∷ 4 ∷ eight [];
    ciphertext = 7 ∷ [];
    ciphertext_sha256 = hash;
  };
  content_type = "text/plain";
  plaintext_size = pos 2;
  retain_until = 900;
}

abbrev finalization : FinalizeDraftParams
finalization = record {
  draft_id = 30;
  sender_id = pos 40;
  expected_lease_until = 130;
  whisper = new_whisper_value;
  telegram_file_id = [];
  telegram_file_unique_id = "";
  callback_token = some (record sealed_text { id = 7 });
  text = some sealed_text;
  media = none;
  caption = none;
  now = 100;
}

finalized : (finalize_draft sample_env finalization ingesting_db).0 ≡ ok new_whisper_value
unfolding finalize_draft find secretmediabot.Domain.Whisper.validate_whisper
    secretmediabot.Domain.Content.validate_content secretmediabot.Domain.Whisper.validate_state
    list_beq find_where matches
finalized = refl

finalize_draft-Finalized_example :
    (new_whisper_value ≡ new_whisper_value)
    × WhisperLaws.IsValid new_whisper_value
    × Finalized finalization 100 ingesting_db
        (finalize_draft sample_env finalization ingesting_db).1
finalize_draft-Finalized_example =
    finalize_draft-Finalized sample_env finalization ingesting_db new_whisper_value finalized

abbrev draft_calls : List DraftCall
draft_calls = claim sample_env ingest ∷ []

abbrev last_call : DraftCall
last_call = finalize sample_env finalization

one_key : Distinct draft_key created_db.drafts
unfolding find
one_key = (refl, tt)

found_draft : find_draft 30 created_db ≡ some (created_row creation)
unfolding find
found_draft = refl

draft_path_example :
    (u v : DraftRow) × (find_draft 30 (run_draft_calls draft_calls created_db) ≡ some u)
    × (find_draft 30 (run_draft_call last_call (run_draft_calls draft_calls created_db)) ≡ some v)
    × ((u.state ≡ v.state) ⊎ (u.state ↣ v.state))
    × (u.sender_id ≡ pos 40)
    × (v.sender_id ≡ pos 40)
draft_path_example =
    draft_path draft_calls last_call created_db 30 (created_row creation) one_key found_draft
