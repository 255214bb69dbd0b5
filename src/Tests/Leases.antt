-- ===== src/Tests/Leases.antt =====
-- The leases on Telegram updates, deletions and publications on the sample database.
use secretmediabot.Base.{
  ◌≤◌, ℕ, ◌≡◌, ◌≢◌, refl, some, false, pos, [], ◌∷◌, List, Bool, nat_eq, int_eq, arith, codes,
}
use secretmediabot.Base.Table.{find, modify, Distinct}
use secretmediabot.Base.Select.{select}
use secretmediabot.Domain.Status.{active}
use secretmediabot.Repository.Errors.{ok}
use secretmediabot.Repository.Rows.{ProcessedUpdateRow, WhisperRow, Db}
use secretmediabot.Repository.Mapping.{whisper_key}
use secretmediabot.Repository.Opening.Finish.{find_whisper}
use secretmediabot.Repository.Cleanup.{job_key}
use secretmediabot.Repository.Updates.{
  ClaimUpdateParams, FinishUpdateParams, UpdateLease, claim_update, acquired_lease, new_update,
  find_update, completed_update,
}
use secretmediabot.Repository.Updates.Leases.{claim_update-excludes}
use secretmediabot.Repository.Updates.Attempts.{claim_update-attempts}
use secretmediabot.Repository.Updates.Processed.{
  UpdateCall, claim, finish, give_up, run_update_calls, processed_update-final,
}
use secretmediabot.Repository.Updates.Deletions.{
  ClaimEphemeralDeleteParams, claim_due_ephemeral_delete, leased_job, claim_due-excludes,
}
use secretmediabot.Repository.Publish.Path.{
  PublishCall, mark, run_publish_call, run_publish_calls, publication_path,
}
use secretmediabot.Repository.Publish.Steps.{◌⇾◌}
use secretmediabot.Base.{◌⊎◌}
use secretmediabot.Tests.Samples.{
  sample_env, sample_db, jobs_db, later_job, sample_job, waiting_row, waiting_db,
}

abbrev first_claim : ClaimUpdateParams
first_claim = record {
  telegram_update_id = pos 5;
  update_type = "message";
  payload_sha256 = [];
  now = 60;
  lease_until = 90;
  max_attempts = pos 3;
}

abbrev second_claim : ClaimUpdateParams
second_claim = record first_claim { now = 80; lease_until = 120 }

first-acquires :
    (claim_update sample_env first_claim sample_db).0 ≡ ok (acquired_lease first_claim 1)
unfolding claim_update find
first-acquires = refl

claim_update-excludes_example :
    ((m : UpdateLease)
      → (claim_update sample_env second_claim (claim_update sample_env first_claim sample_db).1).0
        ≡ ok m
      → m.acquired ≡ false)
    × ((claim_update sample_env second_claim (claim_update sample_env first_claim sample_db).1).1
        ≡ (claim_update sample_env first_claim sample_db).1)
claim_update-excludes_example =
    claim_update-excludes sample_env sample_env first_claim second_claim sample_db
      (acquired_lease first_claim 1) first-acquires refl refl (omega arith)

claim_update-attempts_example :
    (1 ≤ 3)
    × ((u : ProcessedUpdateRow) × (find_update
            (pos 5)
            (claim_update sample_env first_claim sample_db).1
          ≡ some u)
        × (u.attempt_count ≡ 1))
claim_update-attempts_example =
    claim_update-attempts sample_env first_claim sample_db (acquired_lease first_claim 1) 3
      first-acquires refl refl (omega arith)

abbrev done_update : ProcessedUpdateRow
done_update = completed_update 70 (new_update first_claim 60)

abbrev done_db : Db
done_db = record sample_db { updates = done_update ∷ [] }

done-found : find_update (pos 5) done_db ≡ some done_update
unfolding find
done-found = refl

abbrev failure : FinishUpdateParams
failure = record {
  telegram_update_id = pos 5;
  expected_lease_until = 90;
  error_code = codes "timeout";
  now = 85;
}

abbrev update_calls : List UpdateCall
update_calls =
    claim sample_env second_claim ∷ give_up sample_env failure ∷ finish sample_env failure ∷ []

processed_update-final_example :
    find_update (pos 5) (run_update_calls update_calls done_db) ≡ some done_update
processed_update-final_example =
    processed_update-final update_calls done_db (pos 5) done_update done-found refl

abbrev delete_claim : ClaimEphemeralDeleteParams
delete_claim = record { now = 60; lease_until = 90 }

abbrev later_claim : ClaimEphemeralDeleteParams
later_claim = record { now = 70; lease_until = 100 }

abbrev unlocked : ℕ → Bool
unlocked id = false

first_job :
    (claim_due_ephemeral_delete sample_env unlocked delete_claim jobs_db).0
    ≡ ok (leased_job delete_claim 60 sample_job)
unfolding claim_due_ephemeral_delete select
first_job = refl

second_job :
    (claim_due_ephemeral_delete sample_env unlocked later_claim
      (claim_due_ephemeral_delete sample_env unlocked delete_claim jobs_db).1).0
    ≡ ok (leased_job later_claim 70 later_job)
unfolding claim_due_ephemeral_delete select modify
second_job = refl

job_keys : Distinct job_key jobs_db.jobs
unfolding find
job_keys = (refl, (refl, tt))

claim_due-excludes_example : later_job.id ≢ sample_job.id
claim_due-excludes_example =
    claim_due-excludes sample_env sample_env unlocked unlocked delete_claim later_claim jobs_db
      (leased_job delete_claim 60 sample_job) (leased_job later_claim 70 later_job) job_keys
      first_job second_job (omega arith)

abbrev publish_calls : List PublishCall
publish_calls =
    PublishCall.claim sample_env (record { whisper_id = 1; now = 60; lease_until = 90 }) ∷ []

abbrev last_call : PublishCall
last_call =
    mark sample_env
      (record { whisper_id = 1; expected_lease_until = 90; public_message_id = pos 8; now = 70 })

waiting-found : find_whisper 1 waiting_db ≡ some waiting_row
unfolding find
waiting-found = refl

waiting_keys : Distinct whisper_key waiting_db.whispers
unfolding find
waiting_keys = (refl, tt)

publication_path_example :
    (u v : WhisperRow) × (find_whisper 1 (run_publish_calls publish_calls waiting_db) ≡ some u)
    × (find_whisper 1 (run_publish_call last_call (run_publish_calls publish_calls waiting_db))
        ≡ some v)
    × ((u.publish_state ≡ v.publish_state) ⊎ (u.publish_state ⇾ v.publish_state))
    × (u.status ≡ active)
    × (v.status ≡ active)
publication_path_example =
    publication_path publish_calls last_call waiting_db 1 waiting_row waiting_keys waiting-found
