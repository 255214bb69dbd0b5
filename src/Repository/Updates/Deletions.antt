-- ===== src/Repository/Updates/Deletions.antt =====
-- internal/repository/updates.go: the leases on the jobs that delete ephemeral messages.
use secretmediabot.Base.{
  ℕ, suc, ◌≢◌, ◌<◌, ◌≤◌, ◌≡◌, refl, sym, ap, ◌∙◌, Bool, true, false, ◌&&◌, ◌||◌, not, Option, none,
  some, List, [], ◌∷◌, Time, Text, ◌==◌, nat_eq, if◌then◌else◌, after, is_zero_time, leb, is_none,
  arith, Bool-cases, inl, inr, beq_refl,
}
use secretmediabot.Base.Table.{find, modify, matches, Distinct}
use secretmediabot.Base.Table.Laws.{find-modify_hit, Distinct-modify}
use secretmediabot.Base.Select.{select, has_key, select-passes, select-found}
use secretmediabot.Repository.Errors.{ok, invalid_input, not_found, lease_lost}
use secretmediabot.Repository.Rows.{EphemeralDeleteJobRow, Db}
use secretmediabot.Repository.Tx.{Tx, pure, raise, require, now_or, ◌>>=◌}
use secretmediabot.Repository.Mapping.{Env}
use secretmediabot.Repository.Statements.{safe_error_code}
use secretmediabot.Repository.Cleanup.{job_key, is_past}

pub record ClaimEphemeralDeleteParams : Type 0 where
  pub now : Time
  pub lease_until : Time

pub record FinishEphemeralDeleteParams : Type 0 where
  pub job_id : ℕ
  pub expected_lease_until : Time
  pub next_attempt_at : Time
  pub error_code : Text
  pub now : Time

-- The jobs that are due and free, but for those that other transactions hold.
abbrev pub is_due : (ℕ → Bool) → Time → EphemeralDeleteJobRow → Bool
is_due locked now j =
    is_none j.deleted_at
    && leb j.next_attempt_at now
    && (is_none j.lease_until || is_past j.lease_until now)
    && not (locked j.id)

abbrev pub leased_job :
    ClaimEphemeralDeleteParams → Time → EphemeralDeleteJobRow → EphemeralDeleteJobRow
leased_job p now j = record j {
  lease_until = some p.lease_until;
  attempt_count = suc j.attempt_count;
  updated_at = now;
}

abbrev pub any_job : EphemeralDeleteJobRow → Bool
any_job j = true

abbrev pub update_job :
    ℕ → (EphemeralDeleteJobRow → Bool) → (EphemeralDeleteJobRow → EphemeralDeleteJobRow) → Tx Bool
update_job id p f db =
    (ok (matches job_key id p db.jobs), record db { jobs = modify job_key id p f db.jobs })

-- `UPDATE ... FROM candidate ... RETURNING job.*`
unfoldable pub take_candidate :
    ClaimEphemeralDeleteParams → Time → List EphemeralDeleteJobRow → Tx EphemeralDeleteJobRow
take_candidate p now [] = raise not_found
take_candidate p now (j ∷ js) = do
  _ ← update_job j.id any_job (leased_job p now)
  pure (leased_job p now j)

abbrev pub due_jobs : (ℕ → Bool) → Time → Db → List EphemeralDeleteJobRow
due_jobs locked now db =
    select (is_due locked now) (λ (j : EphemeralDeleteJobRow). j.next_attempt_at) job_key 1 db.jobs

-- `Store.ClaimDueEphemeralDelete`
unfoldable pub claim_due_ephemeral_delete :
    Env → (ℕ → Bool) → ClaimEphemeralDeleteParams → Tx EphemeralDeleteJobRow
unfolding take_candidate
claim_due_ephemeral_delete env locked p db =
    let now = now_or env.clock p.now in
    if not (after p.lease_until now)
    then raise invalid_input db
    else take_candidate p now (due_jobs locked now db) db

abbrev pub holds_job : FinishEphemeralDeleteParams → EphemeralDeleteJobRow → Bool
holds_job p j =
    is_none j.deleted_at
    && elim j.lease_until [ none ↦ false | some lease ↦ lease == p.expected_lease_until ]

abbrev pub deleted_job :
    FinishEphemeralDeleteParams → Time → EphemeralDeleteJobRow → EphemeralDeleteJobRow
deleted_job p now j = record j {
  deleted_at = some now;
  lease_until = none;
  last_error = some (safe_error_code p.error_code);
  updated_at = now;
}

abbrev pub retried_job :
    FinishEphemeralDeleteParams → Time → EphemeralDeleteJobRow → EphemeralDeleteJobRow
retried_job p now j = record j {
  lease_until = none;
  next_attempt_at = p.next_attempt_at;
  last_error = some (safe_error_code p.error_code);
  updated_at = now;
}

-- `Store.MarkEphemeralDeleted`
unfoldable pub mark_ephemeral_deleted : Env → FinishEphemeralDeleteParams → Tx (Unit {0})
mark_ephemeral_deleted env p =
    if p.job_id == 0 || is_zero_time p.expected_lease_until then raise invalid_input else do
      hit ← update_job p.job_id (holds_job p) (deleted_job p (now_or env.clock p.now))
      require hit lease_lost

-- `Store.RetryEphemeralDelete`
unfoldable pub retry_ephemeral_delete : Env → FinishEphemeralDeleteParams → Tx (Unit {0})
retry_ephemeral_delete env p =
    let now = now_or env.clock p.now in
    if p.job_id == 0 || is_zero_time p.expected_lease_until || not (after p.next_attempt_at now)
    then raise invalid_input
    else do hit ← update_job p.job_id (holds_job p) (retried_job p now); require hit lease_lost

-- The job that a claim returns, in the tables before and after it.
take_candidate-found :
    (p : ClaimEphemeralDeleteParams) (now : Time) (js : List EphemeralDeleteJobRow) (db : Db)
    (k : EphemeralDeleteJobRow)
    → (take_candidate p now js db).0 ≡ ok k
    → (j : EphemeralDeleteJobRow) × (has_key job_key j.id js ≡ true)
      × (k ≡ leased_job p now j)
      × ((take_candidate p now js db).1.jobs
          ≡ modify job_key j.id any_job (leased_job p now) db.jobs)
unfolding take_candidate has_key
take_candidate-found p now [] db k h = cc
take_candidate-found p now (j ∷ js) db k h = (j, rw (beq_refl j.id) refl, ground (arith, h), refl)

take_candidate-Distinct :
    (p : ClaimEphemeralDeleteParams) (now : Time) (js : List EphemeralDeleteJobRow) (db : Db)
    → Distinct job_key db.jobs
    → Distinct job_key (take_candidate p now js db).1.jobs
unfolding take_candidate
take_candidate-Distinct p now [] db keys = keys
take_candidate-Distinct p now (j ∷ js) db keys =
    Distinct-modify job_key j.id any_job (leased_job p now) db.jobs (λ x. refl) keys

claim_due-found :
    (env : Env) (locked : ℕ → Bool) (p : ClaimEphemeralDeleteParams) (db : Db)
    (k : EphemeralDeleteJobRow)
    → Distinct job_key db.jobs
    → (claim_due_ephemeral_delete env locked p db).0 ≡ ok k
    → (x : EphemeralDeleteJobRow) × (find job_key k.id db.jobs ≡ some x)
      × (is_due locked (now_or env.clock p.now) x ≡ true)
      × (find job_key k.id (claim_due_ephemeral_delete env locked p db).1.jobs
          ≡ some (leased_job p (now_or env.clock p.now) x))
unfolding claim_due_ephemeral_delete
claim_due-found env locked p db k keys done =
    let now = now_or env.clock p.now in
    elim (Bool-cases (after p.lease_until now)) [
      | inr bad ↦ cc (rw bad at done)
      | inl good ↦
          let (j, chosen, made, table) =
            take_candidate-found p now (due_jobs locked now db) db k (rw good at done) in
          let (x, found) =
            select-found job_key j.id (is_due locked now)
              (λ (r : EphemeralDeleteJobRow). r.next_attempt_at) job_key 1 db.jobs chosen in
          let same : j.id ≡ k.id = ap job_key (sym made) in
          (
            x,
            ap (λ i. find job_key i db.jobs) (sym same) ∙ found,
            select-passes job_key j.id (is_due locked now)
                (λ (r : EphemeralDeleteJobRow). r.next_attempt_at) job_key 1 db.jobs x keys found
                chosen,
            rw good (
                ap (find job_key k.id) table
                ∙ (ap (λ i. find job_key i (modify job_key j.id any_job (leased_job p now) db.jobs))
                      (sym same)
                    ∙ find-modify_hit job_key j.id any_job (leased_job p now) db.jobs x (λ r. refl)
                        found refl)),
          )
    ]

claim_due-Distinct :
    (env : Env) (locked : ℕ → Bool) (p : ClaimEphemeralDeleteParams) (db : Db)
    → Distinct job_key db.jobs
    → Distinct job_key (claim_due_ephemeral_delete env locked p db).1.jobs
unfolding claim_due_ephemeral_delete
claim_due-Distinct env locked p db keys =
    let now = now_or env.clock p.now in
    elim (Bool-cases (after p.lease_until now)) [
      | inr bad ↦ rw bad keys
      | inl good ↦ rw good (take_candidate-Distinct p now (due_jobs locked now db) db keys)
    ]

is_due-free :
    (o : Option Time) (now : Time)
    → (is_none o || is_past o now) ≡ true
    → (t : Time) → o ≡ some t
    → t ≤ now
is_due-free none now h t e = cc
is_due-free (some s) now h t e = ground (arith, e)

not_due :
    (held : ℕ → Bool) (now : Time) (y : EphemeralDeleteJobRow) (t : Time)
    → y.lease_until ≡ some t
    → now < t
    → is_due held now y ≡ true
    → ⊥
not_due held now y t lease early due =
    omega (arith, is_due-free y.lease_until now (ground arith) t lease)

-- While the lease of a claim runs, no further claim returns its job, whatever rows are locked.
pub claim_due-excludes :
    (env later : Env) (locked held : ℕ → Bool) (p q : ClaimEphemeralDeleteParams) (db : Db)
    (k m : EphemeralDeleteJobRow)
    → Distinct job_key db.jobs
    → (claim_due_ephemeral_delete env locked p db).0 ≡ ok k
    → (claim_due_ephemeral_delete later held q (claim_due_ephemeral_delete env locked p db).1).0
      ≡ ok m
    → now_or later.clock q.now < p.lease_until
    → m.id ≢ k.id
claim_due-excludes env later locked held p q db k m keys first second early same =
    let (x, _, _, leased) = claim_due-found env locked p db k keys first in
    let (y, found, due, _) =
      claim_due-found later held q (claim_due_ephemeral_delete env locked p db).1 m
        (claim_due-Distinct env locked p db keys) second in
    let again : some y ≡ some (leased_job p (now_or env.clock p.now) x) =
      sym found
      ∙ (ap (λ i. find job_key i (claim_due_ephemeral_delete env locked p db).1.jobs) same
          ∙ leased) in
    let lease : y.lease_until ≡ some p.lease_until = ground arith in
    not_due held (now_or later.clock q.now) y p.lease_until lease early due
