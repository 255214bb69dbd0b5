-- ===== src/Repository/Updates/Processed.antt =====
-- A processed Telegram update stays processed.
use secretmediabot.Base.{
  ℤ, ◌≡◌, refl, ap, ◌∙◌, Bool, true, false, ◌&&◌, ◌||◌, Option, none, some, List, [], ◌∷◌, ◌++◌,
  Time, ◌==◌, nat_eq, int_eq, list_eq, arith, Bool-cases, inl, inr,
}
use secretmediabot.Base.Table.{find}
use secretmediabot.Base.Table.Laws.{find-modify}
use secretmediabot.Repository.Errors.{lease_lost, invalid_input}
use secretmediabot.Repository.Rows.{ProcessedUpdateRow, UpdateState, processing, processed, Db}
use secretmediabot.Repository.Tx.{
  transaction, transaction_keeps, bind_keeps, if_keeps, now_or, require, raise, ◌>>=◌,
  require_state,
}
use secretmediabot.Repository.Mapping.{Env}
use secretmediabot.Repository.Cleanup.{update_key}
use secretmediabot.Repository.Updates.{
  ClaimUpdateParams, FinishUpdateParams, update_eq, is_bad_claim, new_update, reclaimed, is_leased,
  find_update, any_update, update_update, reclaim, claim_at, claim_body, claim_update, holds_lease,
  completed_update, failed_update, is_bad_finish, finish_update, complete_update, fail_update,
}
use secretmediabot.Repository.Updates.Leases.{claim_update-refused}

-- The three calls on a Telegram update.
pub data UpdateCall : Type 0 where
  claim : Env → ClaimUpdateParams → UpdateCall
  finish : Env → FinishUpdateParams → UpdateCall
  give_up : Env → FinishUpdateParams → UpdateCall

unfoldable pub run_update_calls : List UpdateCall → Db → Db
run_update_calls [] db = db
run_update_calls (claim env p ∷ cs) db = run_update_calls cs (claim_update env p db).1
run_update_calls (finish env p ∷ cs) db = run_update_calls cs (complete_update env p db).1
run_update_calls (give_up env p ∷ cs) db = run_update_calls cs (fail_update env p db).1

is_over : (s : UpdateState) (b : Bool) → s ≡ processed → (s == processed || b) ≡ true
is_over s b h = rw h refl

is_not_held : (s : UpdateState) (b : Bool) → s ≡ processed → (s == processing && b) ≡ false
is_not_held s b h = rw h refl

find-append_found :
    (id : ℤ) (us : List ProcessedUpdateRow) (v u : ProcessedUpdateRow)
    → find update_key id us ≡ some u
    → find update_key id (us ++ v ∷ []) ≡ some u
unfolding find
find-append_found id [] v u h = cc
find-append_found id (x ∷ us) v u h = ground (arith, find-append_found id us v u)

update_other :
    (k id : ℤ) (p : ProcessedUpdateRow → Bool) (f : ProcessedUpdateRow → ProcessedUpdateRow)
    (db : Db) (u : ProcessedUpdateRow)
    → ((x : ProcessedUpdateRow) → update_key (f x) ≡ update_key x)
    → find_update id db ≡ some u
    → ((k == id) ≡ true → p u ≡ false)
    → find_update id (update_update k p f db).1 ≡ some u
update_other k id p f db u keys found skip =
    ground (arith, find-modify update_key k id p f db.updates keys, skip)

module _ (id : ℤ) (u : ProcessedUpdateRow) where
  Stays : Db → Type 0
  Stays db = find_update id db ≡ some u

  reclaim-Stays :
      (p : ClaimUpdateParams) (now : Time) (v : ProcessedUpdateRow) (db : Db)
      → Stays db
      → (p.telegram_update_id == id) ≡ false
      → Stays (reclaim p now v db).1
  unfolding reclaim Stays
  reclaim-Stays p now v db h other =
      let changed =
        update_other p.telegram_update_id id any_update (reclaimed p now) db u (λ x. refl) h
          (λ same. cc) in
      ground (arith, changed)

  claim_at-Stays :
      (p : ClaimUpdateParams) (now : Time) (o : Option ProcessedUpdateRow) (db : Db)
      → Stays db
      → (p.telegram_update_id == id) ≡ false
      → Stays (claim_at p now o db).1
  unfolding claim_at Stays
  claim_at-Stays p now none db h other = find-append_found id db.updates (new_update p now) u h
  claim_at-Stays p now (some v) db h other = reclaim-Stays p now v db h other

  claim_update-Stays :
      (env : Env) (p : ClaimUpdateParams) (db : Db)
      → Stays db
      → u.state ≡ processed
      → Stays (claim_update env p db).1
  unfolding claim_update claim_body Stays
  claim_update-Stays env p db h done = elim (Bool-cases (p.telegram_update_id == id)) [
    | inl same ↦
        let eq = (int_eq.beq_iff p.telegram_update_id id).0 same in
        let refused =
          claim_update-refused env p u db (rw eq h)
            (is_over u.state (is_leased u (now_or env.clock p.now)) done) in
        ap (λ d. find_update id d) refused.1 ∙ h
    | inr other ↦
        let now = now_or env.clock p.now in
        if_keeps Stays (is_bad_claim p now) (raise invalid_input) (transaction (claim_body p now))
          db (λ _. h)
          (λ _.
            transaction_keeps Stays (claim_body p now) db h
              (claim_at-Stays p now (find_update p.telegram_update_id db) db h other))
  ]

  finish_update-Stays :
      (p : FinishUpdateParams) (f : ProcessedUpdateRow → ProcessedUpdateRow) (db : Db)
      → ((x : ProcessedUpdateRow) → update_key (f x) ≡ update_key x)
      → Stays db
      → u.state ≡ processed
      → Stays (finish_update p f db).1
  unfolding finish_update Stays
  finish_update-Stays p f db keys h done =
      if_keeps Stays (is_bad_finish p) (raise invalid_input)
        (update_update p.telegram_update_id (holds_lease p) f >>= λ hit. require hit lease_lost) db
        (λ _. h)
        (λ _.
          let kept =
            update_other p.telegram_update_id id (holds_lease p) f db u keys h
              (λ _. is_not_held u.state _ done) in
          bind_keeps Stays (update_update p.telegram_update_id (holds_lease p) f)
            (λ hit. require hit lease_lost) db kept
            (λ hit _. rw (require_state hit lease_lost _) kept))

-- A processed update row stays as it is through every sequence of ClaimUpdate, CompleteUpdate and
-- FailUpdate calls.
pub processed_update-final :
    (cs : List UpdateCall) (db : Db) (id : ℤ) (u : ProcessedUpdateRow)
    → find_update id db ≡ some u
    → u.state ≡ processed
    → find_update id (run_update_calls cs db) ≡ some u
unfolding run_update_calls complete_update fail_update Stays
processed_update-final [] db id u h done = h
processed_update-final (claim env p ∷ cs) db id u h done =
    processed_update-final cs _ id u (claim_update-Stays id u env p db h done) done
processed_update-final (finish env p ∷ cs) db id u h done =
    processed_update-final cs _ id u
      (finish_update-Stays id u p (completed_update (now_or env.clock p.now)) db (λ x. refl) h done)
      done
processed_update-final (give_up env p ∷ cs) db id u h done =
    processed_update-final cs _ id u
      (finish_update-Stays id u p (failed_update p (now_or env.clock p.now)) db (λ x. refl) h done)
      done
