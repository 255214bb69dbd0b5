-- ===== src/Repository/Updates/Attempts.antt =====
-- The limit on the attempts at a Telegram update.
use secretmediabot.Base.{
  ℕ, ℤ, pos, suc, ◌<◌, ◌≤◌, ◌≡◌, refl, sym, ap, ◌∙◌, true, false, Option, none, some, ◌==◌, Time,
  nat_eq, int_eq, list_eq, arith, Bool-cases, inl, inr,
}
use secretmediabot.Repository.Errors.{ok}
use secretmediabot.Repository.Rows.{ProcessedUpdateRow, processed, Db}
use secretmediabot.Repository.Tx.{now_or}
use secretmediabot.Repository.Mapping.{Env}
use secretmediabot.Base.Table.Laws.{matches-find}
use secretmediabot.Repository.Cleanup.{update_key}
use secretmediabot.Repository.Updates.{
  ClaimUpdateParams, UpdateLease, update_eq, is_bad_claim, new_update, reclaimed, hash_changed,
  is_leased, is_exhausted, find_update, any_update, reclaim, claim_at, claim_body, claim_update,
}
use secretmediabot.Repository.Updates.Leases.{reclaim-acquired, find-append_new, transaction-ok}

-- The attempts that a lease reports are within the limit, and are those of the row.
Counts : ℤ → ℕ → UpdateLease → Db → Type 0
Counts id limit l db =
    (l.attempts ≤ limit)
    × ((u : ProcessedUpdateRow) × (find_update id db ≡ some u) × (u.attempt_count ≡ l.attempts))

reclaim-attempts :
    (p : ClaimUpdateParams) (now : Time) (u : ProcessedUpdateRow) (db : Db) (l : UpdateLease)
    → find_update p.telegram_update_id db ≡ some u
    → (reclaim p now u db).0 ≡ ok l
    → l.acquired ≡ true
    → (is_exhausted p.max_attempts u.attempt_count ≡ false) × (suc u.attempt_count ≡ l.attempts)
unfolding reclaim
reclaim-attempts p now u db l found done got =
    elim (Bool-cases (hash_changed u.payload_sha256 p.payload_sha256)) [
      | inl changed ↦ cc (rw changed at done)
      | inr kept ↦ elim (Bool-cases (u.state == processed)) [
        | inl over ↦ cc (rw (kept, over) at done, got)
        | inr undone ↦ elim (Bool-cases (is_leased u now)) [
          | inl leased ↦ cc (rw (kept, undone, leased) at done, got)
          | inr free ↦ elim (Bool-cases (is_exhausted p.max_attempts u.attempt_count)) [
            | inl dead ↦ cc (rw (kept, undone, free, dead) at done)
            | inr alive ↦
                let hit =
                  matches-find update_key p.telegram_update_id any_update db.updates u found in
                (alive, ground (arith, rw (kept, undone, free, alive, hit) at done))
          ]
        ]
      ]
    ]

claim_at-Counts :
    (p : ClaimUpdateParams) (now : Time) (o : Option ProcessedUpdateRow) (db : Db) (l : UpdateLease)
    (limit : ℕ)
    → find_update p.telegram_update_id db ≡ o
    → (claim_at p now o db).0 ≡ ok l
    → l.acquired ≡ true
    → p.max_attempts ≡ pos limit
    → 0 < limit
    → Counts p.telegram_update_id limit l (claim_at p now o db).1
unfolding claim_at Counts
claim_at-Counts p now none db l limit missing done got max positive = (
  ground (arith, done),
  (new_update p now, find-append_new (new_update p now) db.updates missing, ground (arith, done)),
)
claim_at-Counts p now (some u) db l limit found done got max positive =
    let (alive, attempts) = reclaim-attempts p now u db l found done got in
    let room : is_exhausted (pos limit) u.attempt_count ≡ false =
      ap (λ m. is_exhausted m u.attempt_count) (sym max) ∙ alive in
    (
      ground (arith, room, attempts),
      (reclaimed p now u, reclaim-acquired p now u db l found done got, attempts),
    )

-- With a positive limit on attempts, a claim that acquires its lease reports a number of attempts
-- within the limit, and the row that it leaves counts the same number.
pub claim_update-attempts :
    (env : Env) (p : ClaimUpdateParams) (db : Db) (l : UpdateLease) (limit : ℕ)
    → (claim_update env p db).0 ≡ ok l
    → l.acquired ≡ true
    → p.max_attempts ≡ pos limit
    → 0 < limit
    → (l.attempts ≤ limit)
      × ((u : ProcessedUpdateRow) × (find_update p.telegram_update_id (claim_update env p db).1
            ≡ some u)
          × (u.attempt_count ≡ l.attempts))
unfolding claim_update claim_body Counts
claim_update-attempts env p db l limit done got max positive =
    let now = now_or env.clock p.now in
    elim (Bool-cases (is_bad_claim p now)) [
      | inl bad ↦ cc (rw bad at done)
      | inr good ↦
          let (body, same) = transaction-ok (claim_body p now db) db l (rw good at done) in
          let counts =
            claim_at-Counts p now (find_update p.telegram_update_id db) db l limit refl body got max
              positive in
          rw (good, same) counts
    ]
