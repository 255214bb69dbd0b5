-- ===== src/Repository/Updates/Leases.antt =====
-- What a lease on a Telegram update guarantees.
use secretmediabot.Base.{
  ℤ, ◌<◌, ◌≡◌, refl, true, false, ◌&&◌, ◌||◌, Option, none, some, List, [], ◌∷◌, ◌++◌, Time, ◌==◌,
  nat_eq, int_eq, list_eq, after, arith, Bool-cases, inl, inr, beq_refl,
}
use secretmediabot.Base.Table.{find}
use secretmediabot.Base.Table.Laws.{find-modify_hit, matches-find}
use secretmediabot.Repository.Errors.{Result, ok, err}
use secretmediabot.Repository.Rows.{ProcessedUpdateRow, UpdateState, processing, processed, Db}
use secretmediabot.Repository.Tx.{roll_back, now_or}
use secretmediabot.Repository.Mapping.{Env}
use secretmediabot.Repository.Cleanup.{update_key}
use secretmediabot.Repository.Updates.{
  ClaimUpdateParams, UpdateLease, update_eq, is_bad_claim, new_update, reclaimed, hash_changed,
  is_leased, is_exhausted, find_update, any_update, reclaim, claim_at, claim_body, claim_update,
}

pub find-append_new :
    (u : ProcessedUpdateRow) (us : List ProcessedUpdateRow)
    → find update_key u.telegram_update_id us ≡ none
    → find update_key u.telegram_update_id (us ++ u ∷ []) ≡ some u
unfolding find
find-append_new u [] h = rw (beq_refl u.telegram_update_id) refl
find-append_new u (x ∷ us) h = ground (arith, find-append_new u us)

-- What a claim that acquires its lease leaves in the table.
IsLeased : ℤ → Time → Db → Type 0
IsLeased id lease db =
    (u : ProcessedUpdateRow) × (find_update id db ≡ some u)
    × (u.state ≡ processing)
    × (u.lease_until ≡ some lease)

-- A reclaim that acquires its lease has passed the tests, and rewrites the row.
pub reclaim-acquired :
    (p : ClaimUpdateParams) (now : Time) (u : ProcessedUpdateRow) (db : Db) (l : UpdateLease)
    → find_update p.telegram_update_id db ≡ some u
    → (reclaim p now u db).0 ≡ ok l
    → l.acquired ≡ true
    → find_update p.telegram_update_id (reclaim p now u db).1 ≡ some (reclaimed p now u)
unfolding reclaim
reclaim-acquired p now u db l found done got =
    elim (Bool-cases (hash_changed u.payload_sha256 p.payload_sha256)) [
      | inl changed ↦ cc (rw changed at done)
      | inr kept ↦ elim (Bool-cases (u.state == processed)) [
        | inl over ↦ cc (rw (kept, over) at done, got)
        | inr undone ↦ elim (Bool-cases (is_leased u now)) [
          | inl leased ↦ cc (rw (kept, undone, leased) at done, got)
          | inr free ↦ elim (Bool-cases (is_exhausted p.max_attempts u.attempt_count)) [
            | inl dead ↦ cc (rw (kept, undone, free, dead) at done)
            | inr alive ↦
                let hit =
                  matches-find update_key p.telegram_update_id any_update db.updates u found in
                rw (kept, undone, free, alive, hit)
                  (find-modify_hit update_key p.telegram_update_id any_update (reclaimed p now)
                    db.updates u (λ x. refl) found refl)
          ]
        ]
      ]
    ]

claim_at-IsLeased :
    (p : ClaimUpdateParams) (now : Time) (o : Option ProcessedUpdateRow) (db : Db) (l : UpdateLease)
    → find_update p.telegram_update_id db ≡ o
    → (claim_at p now o db).0 ≡ ok l
    → l.acquired ≡ true
    → IsLeased p.telegram_update_id p.lease_until (claim_at p now o db).1
unfolding claim_at IsLeased
claim_at-IsLeased p now none db l missing done got =
    (new_update p now, find-append_new (new_update p now) db.updates missing, refl, refl)
claim_at-IsLeased p now (some u) db l found done got =
    (reclaimed p now u, reclaim-acquired p now u db l found done got, refl, refl)

-- A transaction that succeeds leaves what its body leaves.
pub transaction-ok :
    {A : Type 0} (r : Result A × Db) (db : Db) (a : A)
    → (roll_back db r).0 ≡ ok a
    → (r.0 ≡ ok a) × ((roll_back db r).1 ≡ r.1)
transaction-ok (ok x, d) db a h = (h, refl)
transaction-ok (err e, d) db a h = cc

claim_update-IsLeased :
    (env : Env) (p : ClaimUpdateParams) (db : Db) (l : UpdateLease)
    → (claim_update env p db).0 ≡ ok l
    → l.acquired ≡ true
    → IsLeased p.telegram_update_id p.lease_until (claim_update env p db).1
unfolding claim_update claim_body
claim_update-IsLeased env p db l done got =
    let now = now_or env.clock p.now in
    elim (Bool-cases (is_bad_claim p now)) [
      | inl bad ↦ cc
      | inr good ↦
          let (body, same) = transaction-ok (claim_body p now db) db l (rw good at done) in
          rw (good, same) (claim_at-IsLeased p now _ db l refl body got)
    ]

-- A row under a running lease, or a processed one, refuses every claim and stays as it is.
reclaim-refused :
    (p : ClaimUpdateParams) (now : Time) (u : ProcessedUpdateRow) (db : Db)
    → (u.state == processed || is_leased u now) ≡ true
    → ((l : UpdateLease) → (reclaim p now u db).0 ≡ ok l → l.acquired ≡ false)
      × ((reclaim p now u db).1 ≡ db)
unfolding reclaim
reclaim-refused p now u db held =
    elim (Bool-cases (hash_changed u.payload_sha256 p.payload_sha256)) [
      | inl changed ↦ rw changed ((λ l h. cc), refl)
      | inr kept ↦ elim (Bool-cases (u.state == processed)) [
        | inl over ↦ rw (kept, over) ((λ l h. ground arith), refl)
        | inr undone ↦ rw (kept, undone, rw undone at held) ((λ l h. ground arith), refl)
      ]
    ]

claim_at-refused :
    (p : ClaimUpdateParams) (now : Time) (u : ProcessedUpdateRow) (db : Db)
    → find_update p.telegram_update_id db ≡ some u
    → (u.state == processed || is_leased u now) ≡ true
    → ((l : UpdateLease) → (claim_body p now db).0 ≡ ok l → l.acquired ≡ false)
      × ((claim_body p now db).1 ≡ db)
unfolding claim_body claim_at
claim_at-refused p now u db found held = rw found (reclaim-refused p now u db held)

roll_back-same : {A : Type 0} (r : Result A × Db) (db : Db) → r.1 ≡ db → (roll_back db r).1 ≡ db
roll_back-same (ok a, d) db h = h
roll_back-same (err e, d) db h = refl

-- A claim of an update whose row is processed, or under a lease that runs at the time of the claim,
-- acquires nothing and leaves the database as it is, whatever error or lease it returns.
pub claim_update-refused :
    (env : Env) (p : ClaimUpdateParams) (u : ProcessedUpdateRow) (db : Db)
    → find_update p.telegram_update_id db ≡ some u
    → (u.state == processed || is_leased u (now_or env.clock p.now)) ≡ true
    → ((l : UpdateLease) → (claim_update env p db).0 ≡ ok l → l.acquired ≡ false)
      × ((claim_update env p db).1 ≡ db)
unfolding claim_update
claim_update-refused env p u db found held =
    let now = now_or env.clock p.now in
    elim (Bool-cases (is_bad_claim p now)) [
      | inl bad ↦ rw bad ((λ l h. cc), refl)
      | inr good ↦
          let (nothing, same) = claim_at-refused p now u db found held in
          rw good (
            (λ l h. nothing l (transaction-ok (claim_body p now db) db l h).0),
            roll_back-same (claim_body p now db) db same,
          )
    ]

-- While the lease of an acquired claim runs, no other claim of the update acquires one, and the
-- database stays as the first claim left it.
pub claim_update-excludes :
    (env later : Env) (p q : ClaimUpdateParams) (db : Db) (l : UpdateLease)
    → (claim_update env p db).0 ≡ ok l
    → l.acquired ≡ true
    → q.telegram_update_id ≡ p.telegram_update_id
    → now_or later.clock q.now < p.lease_until
    → ((m : UpdateLease)
        → (claim_update later q (claim_update env p db).1).0 ≡ ok m
        → m.acquired ≡ false)
      × ((claim_update later q (claim_update env p db).1).1 ≡ (claim_update env p db).1)
unfolding IsLeased
claim_update-excludes env later p q db l done got same early =
    let (u, found, st, lease) = claim_update-IsLeased env p db l done got in
    claim_update-refused later q u (claim_update env p db).1 (rw same found)
      (held u.state u.lease_until st lease)
  where
    held :
        (s : UpdateState) (o : Option Time)
        → s ≡ processing
        → o ≡ some p.lease_until
        → (s == processed
            || (s == processing
                && elim o [ none ↦ false | some t ↦ after t (now_or later.clock q.now) ]))
          ≡ true
    held s o st lease = rw (st, lease) (ground (arith, early))
