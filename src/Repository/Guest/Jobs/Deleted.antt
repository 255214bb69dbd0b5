-- ===== src/Repository/Guest/Jobs/Deleted.antt =====
-- What the calls on deletion jobs of internal/repository/guest.go do to a job that is done.
use secretmediabot.Base.{
  ℕ, ◌≡◌, refl, ap, ◌∙◌, Bool, true, ◌&&◌, ◌||◌, not, Option, none, some, List, [], ◌∷◌, Time, ◌==◌,
  nat_eq, arith, inl, inr, Bool-cases, after, is_none, is_zero_time,
}
use secretmediabot.Base.Table.{find, Distinct}
use secretmediabot.Base.Table.Laws.{find-modify, Distinct-modify}
use secretmediabot.Base.Select.{has_key, select-passes}
use secretmediabot.Repository.Errors.{invalid_input, lease_lost}
use secretmediabot.Repository.Rows.{GuestPrivateDeleteJobRow, Db}
use secretmediabot.Repository.Tx.{
  raise, require, now_or, Keeps, bind-Keeps, if-Keeps, require-Keeps, ◌>>=◌,
}
use secretmediabot.Repository.Mapping.{Env}
use secretmediabot.Repository.Guest.Jobs.{
  ClaimGuestDeleteParams, FinishGuestDeleteParams, guest_job_key, update_guest_job, is_due_guest,
  leased_guest_job, any_guest_job, take_guest_job, due_guest_jobs, claim_due_guest_delete,
  holds_guest_job, deleted_guest_job, retried_guest_job, mark_guest_deleted, retry_guest_delete,
}

pub data JobCall : Type 0 where
  claim_due : Env → (ℕ → Bool) → ClaimGuestDeleteParams → JobCall
  mark_deleted : Env → FinishGuestDeleteParams → JobCall
  retry : Env → FinishGuestDeleteParams → JobCall

unfoldable pub run_job_call : JobCall → Db → Db
run_job_call (claim_due env locked p) db = (claim_due_guest_delete env locked p db).1
run_job_call (mark_deleted env p) db = (mark_guest_deleted env p db).1
run_job_call (retry env p) db = (retry_guest_delete env p db).1

unfoldable pub run_job_calls : List JobCall → Db → Db
unfolding run_job_call
run_job_calls [] db = db
run_job_calls (c ∷ cs) db = run_job_calls cs (run_job_call c db)

not_undeleted : (o : Option Time) (t : Time) → o ≡ some t → is_none o ≡ true → ⊥
not_undeleted none t e h = cc
not_undeleted (some s) t e h = cc

module _ (id : ℕ) (j : GuestPrivateDeleteJobRow) (t : Time) (gone : j.deleted_at ≡ some t) where
  abbrev IsFrozen : Db → Type 0
  IsFrozen db =
      Distinct guest_job_key db.guest_jobs × (find guest_job_key id db.guest_jobs ≡ some j)

  update-IsFrozen :
      (k : ℕ) (p : GuestPrivateDeleteJobRow → Bool)
      (f : GuestPrivateDeleteJobRow → GuestPrivateDeleteJobRow) (db : Db)
      → ((x : GuestPrivateDeleteJobRow) → (f x).id ≡ x.id)
      → ((x : GuestPrivateDeleteJobRow)
          → find guest_job_key k db.guest_jobs ≡ some x
          → p x ≡ true
          → is_none x.deleted_at ≡ true)
      → IsFrozen db
      → IsFrozen (update_guest_job k p f db).1
  update-IsFrozen k p f db keys alive (d, found) =
      let image = find-modify guest_job_key k id p f db.guest_jobs keys in
      (
        Distinct-modify guest_job_key k p f db.guest_jobs keys d,
        elim (Bool-cases (k == id && p j)) [
          | inl hit ↦ absurd (
              not_undeleted j.deleted_at t gone (
                alive j
                  (ap (λ i. find guest_job_key i db.guest_jobs)
                      ((nat_eq.beq_iff k id).0 (ground arith))
                    ∙ found)
                  (ground arith)))
          | inr miss ↦ ground (arith, image, found)
        ],
      )

  checked-IsFrozen :
      (k : ℕ) (expected : Time) (f : GuestPrivateDeleteJobRow → GuestPrivateDeleteJobRow)
      → ((x : GuestPrivateDeleteJobRow) → (f x).id ≡ x.id)
      → Keeps IsFrozen
          (update_guest_job k (holds_guest_job expected) f >>= λ hit. require hit lease_lost)
  checked-IsFrozen k expected f keys =
      bind-Keeps IsFrozen (update_guest_job k (holds_guest_job expected) f)
        (λ hit. require hit lease_lost)
        (λ db h.
          update-IsFrozen k (holds_guest_job expected) f db keys (λ x _ pass. ground (arith, pass))
            h)
        (λ hit. require-Keeps IsFrozen hit lease_lost)

  take-IsFrozen :
      (locked : ℕ → Bool) (lease now : Time) (js : List GuestPrivateDeleteJobRow) (db : Db)
      → due_guest_jobs locked now db ≡ js
      → IsFrozen db
      → IsFrozen (take_guest_job lease now js db).1
  unfolding take_guest_job has_key
  take-IsFrozen locked lease now [] db chosen h = h
  take-IsFrozen locked lease now (x ∷ js) db chosen h =
      let there : has_key guest_job_key x.id (due_guest_jobs locked now db) ≡ true =
        rw chosen (ground (arith, nat_eq.beq_iff x.id x.id)) in
      update-IsFrozen x.id any_guest_job (leased_guest_job lease now) db (λ y. refl)
        (λ y found _.
          let due =
            select-passes guest_job_key x.id (is_due_guest locked now)
              (λ (z : GuestPrivateDeleteJobRow). z.next_attempt_at) guest_job_key 1 db.guest_jobs y
              h.0 found there in
          ground (arith, due))
        h

  claim-IsFrozen :
      (env : Env) (locked : ℕ → Bool) (p : ClaimGuestDeleteParams)
      → Keeps IsFrozen (claim_due_guest_delete env locked p)
  unfolding claim_due_guest_delete
  claim-IsFrozen env locked p =
      let now = now_or env.clock p.now in
      if-Keeps IsFrozen (not (after p.lease_until now)) (raise invalid_input)
        (λ db. take_guest_job p.lease_until now (due_guest_jobs locked now db) db) (λ db h. h)
        (λ db h. take-IsFrozen locked p.lease_until now _ db refl h)

  run_job_call-IsFrozen : (c : JobCall) (db : Db) → IsFrozen db → IsFrozen (run_job_call c db)
  unfolding run_job_call mark_guest_deleted retry_guest_delete
  run_job_call-IsFrozen (claim_due env locked p) = claim-IsFrozen env locked p
  run_job_call-IsFrozen (mark_deleted env p) =
      checked-IsFrozen p.job_id p.expected_lease_until
        (deleted_guest_job p (now_or env.clock p.now)) (λ x. refl)
  run_job_call-IsFrozen (retry env p) =
      let now = now_or env.clock p.now in
      if-Keeps IsFrozen
        (p.job_id == 0 || is_zero_time p.expected_lease_until || not (after p.next_attempt_at now))
        (raise invalid_input)
        (update_guest_job p.job_id (holds_guest_job p.expected_lease_until)
            (retried_guest_job p now)
          >>= λ hit. require hit lease_lost)
        (λ db h. h)
        (checked-IsFrozen p.job_id p.expected_lease_until (retried_guest_job p now) (λ x. refl))

  run_job_calls-IsFrozen :
      (cs : List JobCall) (db : Db) → IsFrozen db → IsFrozen (run_job_calls cs db)
  unfolding run_job_calls
  run_job_calls-IsFrozen [] db h = h
  run_job_calls-IsFrozen (c ∷ cs) db h =
      run_job_calls-IsFrozen cs (run_job_call c db) (run_job_call-IsFrozen c db h)

-- Where job keys are distinct, no sequence of ClaimDueGuestDelete, MarkGuestDeleted and
-- RetryGuestDelete calls, whatever rows are locked, changes the row of a job that is marked as deleted.
pub deleted_job_final :
    (cs : List JobCall) (db : Db) (id : ℕ) (j : GuestPrivateDeleteJobRow) (t : Time)
    → Distinct guest_job_key db.guest_jobs
    → find guest_job_key id db.guest_jobs ≡ some j
    → j.deleted_at ≡ some t
    → find guest_job_key id (run_job_calls cs db).guest_jobs ≡ some j
deleted_job_final cs db id j t keys found gone =
    (run_job_calls-IsFrozen id j t gone cs db (keys, found)).1
