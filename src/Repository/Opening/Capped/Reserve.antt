-- ===== src/Repository/Opening/Capped/Reserve.antt =====
-- `ReserveOpen` of internal/repository/opening.go keeps the bound.
use secretmediabot.Base.{
  ℕ, ◌≤◌, ◌≡◌, refl, sym, ap, ◌∙◌, Bool, true, false, ◌&&◌, ◌||◌, some, Time, ◌==◌, nat_eq, arith,
  int_eq, Bool-cases, inl, inr, after,
}
use secretmediabot.Base.Table.Laws.{find_where-find, find-modify_hit}
use secretmediabot.Domain.Status.{
  WhisperStatus, active, opening, opened, expired, revoked, status_eq, publish_eq,
}
use secretmediabot.Domain.Events.{
  denied_revoked, denied_already_opened, denied_wrong_user, OpenDeliveryState, denied_not_active,
  denied_ambiguous, denied_expired,
}
use secretmediabot.Repository.Errors.{
  unauthorized, already_opened, Error, not_active, open_ambiguous,
}
use secretmediabot.Repository.Rows.{WhisperRow, Db}
use secretmediabot.Repository.Tx.{
  transaction_keeps, bind_keeps, transaction, if_keeps, take, take_state, take_found, now_or,
}
use secretmediabot.Repository.Mapping.{Env, whisper_key}
use secretmediabot.Repository.Statements.{update_whisper}
use secretmediabot.Repository.Opening.Params.{ReserveOpenParams}
use secretmediabot.Repository.Opening.Audit.{
  has_reserved_open_event, reactivate_row, always, expire_row, expire_locked_whisper,
}
use secretmediabot.Repository.Opening.Reserve.{
  Verdict, is_bad_reservation, deny, reserve_found, by_token, lease_runs, verdict_result,
  reserve_opening, reserve_status, reserve_body, reserve_open,
}
use secretmediabot.Repository.Opening.Finish.{find_whisper}
use secretmediabot.Repository.Opening.Tally.{tally, HasKeys, IsCapped}
use secretmediabot.Repository.Opening.Capped.{Suits, Good, deny-Good, set_status-Good}
use secretmediabot.Repository.Opening.Capped.Lease.{IsOpenable, grant-Good}

verdict_result_state : (v : Verdict) (db : Db) → (verdict_result v db).1 ≡ db
unfolding verdict_result
verdict_result_state v db = ground arith

module _ {q : OpenDeliveryState → Bool} {cap : WhisperStatus → ℕ} (s : Suits q cap) where
  expire-Good :
      (w : WhisperRow) (now : Time) (db : Db)
      → Good s db
      → find_whisper w.id db ≡ some w
      → (w.status == active || w.status == opening) ≡ true
      → Good s (expire_locked_whisper w.id now db).1
  unfolding expire_locked_whisper
  expire-Good w now db h here live =
      set_status-Good s w.id (expire_row now) db (λ x. refl)
        (λ x found one. ground (arith, h.1.bound w.id w here, s.lapse, s.lapse_opening)) h

  -- A lapsed opening with no reserved event left is under the bound of an active whisper.
  unfoldable pub Reopens : Db → Type 0
  Reopens db =
      (w : WhisperRow)
      → find_whisper w.id db ≡ some w
      → w.one_time ≡ true
      → w.status ≡ opening
      → has_reserved_open_event w.id db ≡ false
      → tally q w.id db.events ≤ cap active

  reactivated-IsOpenable :
      (w : WhisperRow) (now : Time) (db : Db)
      → find_whisper w.id db ≡ some w
      → (w.one_time ≡ true → tally q w.id db.events ≤ cap active)
      → IsOpenable s
          (reactivate_row w.updated_at w)
          (update_whisper w.id always (reactivate_row now) db).1
  unfolding IsOpenable
  reactivated-IsOpenable w now db here room x found =
      let made : some x ≡ some (reactivate_row now w) =
        sym found
        ∙ find-modify_hit whisper_key w.id always (reactivate_row now) db.whispers w (λ r. refl)
            here refl in
      let same : x ≡ reactivate_row now w = ground arith in
      (ap (λ (r : WhisperRow). r.one_time) same, room)

  reserve_opening-Good :
      (env : Env) (w : WhisperRow) (p : ReserveOpenParams) (now : Time) (db : Db)
      → Good s db
      → find_whisper w.id db ≡ some w
      → w.status ≡ opening
      → Reopens db
      → Good s (reserve_opening env w p now db).1
  unfolding reserve_opening Reopens
  reserve_opening-Good env w p now db h here st reopens =
      elim (Bool-cases (lease_runs w.opening_lease_until now)) [
        | inl runs ↦ rw runs (deny-Good s env w p not_active denied_not_active db h)
        | inr lapsed ↦ elim (Bool-cases (w.one_time && has_reserved_open_event w.id db)) [
          | inl lingers ↦
              rw (lapsed, lingers) (deny-Good s env w p open_ambiguous denied_ambiguous db h)
          | inr clear ↦
              let room : w.one_time ≡ true → tally q w.id db.events ≤ cap active =
                λ one. reopens w here one st (ground arith) in
              rw (lapsed, clear)
                (grant-Good s env (reactivate_row w.updated_at w) p now
                  (update_whisper w.id always (reactivate_row now) db).1
                  (set_status-Good s w.id (reactivate_row now) db (λ x. refl)
                    (λ x found one. ground (arith, room)) h)
                  (reactivated-IsOpenable w now db here room))
        ]
      ]

  active-IsOpenable :
      (w : WhisperRow) (db : Db)
      → Good s db
      → find_whisper w.id db ≡ some w
      → w.status ≡ active
      → IsOpenable s w db
  unfolding IsOpenable
  active-IsOpenable w db h here st x found =
      (ground arith, λ one. ground (arith, h.1.bound w.id w here one))

  reserve_status-Good :
      (env : Env) (st : WhisperStatus) (w : WhisperRow) (p : ReserveOpenParams) (now : Time)
      (db : Db)
      → Good s db
      → find_whisper w.id db ≡ some w
      → w.status ≡ st
      → Reopens db
      → Good s (reserve_status env st w p now db).1
  unfolding reserve_status
  reserve_status-Good env active w p now db h here e r =
      grant-Good s env w p now db h (active-IsOpenable w db h here e)
  reserve_status-Good env opening w p now db h here e r =
      reserve_opening-Good env w p now db h here e r
  reserve_status-Good env opened w p now db h here e r =
      deny-Good s env w p already_opened denied_already_opened db h
  reserve_status-Good env expired w p now db h here e r =
      deny-Good s env w p not_active denied_not_active db h
  reserve_status-Good env revoked w p now db h here e r =
      deny-Good s env w p not_active denied_revoked db h
  reserve_status-Good env (WhisperStatus.other t) w p now db h here e r =
      deny-Good s env w p not_active denied_not_active db h

  reserve_found-Good :
      (env : Env) (w : WhisperRow) (p : ReserveOpenParams) (now : Time) (db : Db)
      → Good s db
      → find_whisper w.id db ≡ some w
      → Reopens db
      → Good s (reserve_found env w p now db).1
  unfolding reserve_found
  reserve_found-Good env w p now db h here r =
      elim (Bool-cases (w.recipient_id == p.telegram_user_id)) [
        | inr stranger ↦ rw stranger (deny-Good s env w p unauthorized denied_wrong_user db h)
        | inl mine ↦ elim (Bool-cases (after w.expires_at now)) [
          | inl alive ↦ rw (mine, alive) (reserve_status-Good env w.status w p now db h here refl r)
          | inr late ↦ elim (Bool-cases (w.status == active || w.status == opening)) [
            | inl live ↦
                rw (mine, late, live)
                  (bind_keeps (Good s) (expire_locked_whisper w.id now)
                    (λ _. deny env w p Error.expired denied_expired) db
                    (expire-Good w now db h here live)
                    (λ _ _.
                      deny-Good s env w p Error.expired denied_expired _
                        (expire-Good w now db h here live)))
            | inr gone ↦
                rw (mine, late, gone) (deny-Good s env w p Error.expired denied_expired db h)
          ]
        ]
      ]

  reserve_body-Good :
      (env : Env) (p : ReserveOpenParams) (now : Time) (db : Db)
      → Good s db
      → Reopens db
      → Good s (reserve_body env p now db).1
  unfolding reserve_body by_token
  reserve_body-Good env p now db h r =
      bind_keeps (Good s) (take (by_token p)) (λ w. reserve_found env w p now) db
        (rw (take_state (by_token p) db) h)
        (λ w found. rw (take_state (by_token p) db) (
          reserve_found-Good env w p now db h
            (find_where-find whisper_key _ db.whispers w h.0.whispers_distinct
              (take_found (by_token p) db w found))
            r))

  -- `ReserveOpen` keeps the bound.
  pub reserve_open-Good :
      (env : Env) (p : ReserveOpenParams) (db : Db)
      → HasKeys db × IsCapped q cap db
      → Reopens db
      → HasKeys (reserve_open env p db).1 × IsCapped q cap (reserve_open env p db).1
  unfolding reserve_open
  reserve_open-Good env p db h r =
      if_keeps (Good s) (is_bad_reservation p (now_or env.clock p.now)) _ _ db (λ _. h)
        (λ _.
          bind_keeps (Good s) (transaction (reserve_body env p (now_or env.clock p.now)))
            verdict_result db (in_transaction h r)
            (λ v _. rw (verdict_result_state v _) (in_transaction h r)))
    where
      in_transaction :
          Good s db
          → Reopens db
          → Good s (transaction (reserve_body env p (now_or env.clock p.now)) db).1
      in_transaction h r =
          transaction_keeps (Good s) (reserve_body env p (now_or env.clock p.now)) db h
            (reserve_body-Good env p (now_or env.clock p.now) db h r)
