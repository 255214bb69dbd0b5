-- ===== src/Repository/Opening/Capped.antt =====
-- The operations of internal/repository/opening.go keep a bound on the events of a one-time whisper:
-- the statements that they are made of.
pub mod Lease
pub mod Reserve
pub mod Finish
pub mod Settle
pub mod Fail
use secretmediabot.Base.{
  ℕ, suc, ◌+◌, ◌≤◌, ◌≡◌, refl, sym, ap, ◌∙◌, Bool, true, false, ◌&&◌, ◌||◌, not, Option, none, some,
  Uuid, Time, ◌==◌, nat_eq, arith, int_eq, Bool-cases, Option-cases, inl, inr, ◌⊎◌, if◌then◌else◌,
  count, ltb, after,
}
use secretmediabot.Base.Table.{find, matches, find_where, find_where-passes}
use secretmediabot.Base.Table.Laws.{bit, find-key, find_where-find, find-modify_hit, matches-true}
use secretmediabot.Domain.Status.{
  WhisperStatus, active, opening, opened, expired, revoked, status_eq, published, publish_eq,
}
use secretmediabot.Domain.Events.{
  OpenEventOutcome, OpenDeliveryState, denied_not_active, denied_ambiguous, denied_expired,
  not_attempted, reserved, delivered, failed,
}
use secretmediabot.Repository.Errors.{Error, Result, ok, err, not_active, open_ambiguous}
use secretmediabot.Repository.Rows.{WhisperRow, OpenEventRow, Db}
use secretmediabot.Repository.Tx.{
  Tx, transaction_keeps, bind_keeps, transaction, if_keeps, take, take_state, take_found, now_or,
  pure, ◌>>=◌, pure_keeps,
}
use secretmediabot.Repository.Mapping.{
  Env, whisper_key, load_whisper_projection, load_whisper_projection_state,
}
use secretmediabot.Repository.Statements.{
  event_key, update_whisper, update_event, insert_event, insert_event-cases, with_event,
}
use secretmediabot.Repository.Opening.Params.{ReserveOpenParams, CompleteOpenParams, FailOpenParams}
use secretmediabot.Repository.Opening.Audit.{
  is_recent, is_stored_outcome, record_denied_open, denied_event, has_reserved_open_event,
  reactivate_row, opening_row, always, expire_row, expire_locked_whisper,
}
use secretmediabot.Repository.Opening.Reserve.{
  Verdict, is_bad_reservation, denied, deny, grant, reserve_event, reserve_found, by_token,
  lease_runs, verdict_result, reserve_opening, reserve_status, reserve_body, reserve_open,
  take_opening_lease, reserved_event, is_active_row,
}
use secretmediabot.Repository.Opening.Content.{load_delivery_content}
use secretmediabot.Repository.Opening.Finish.{find_whisper}
use secretmediabot.Repository.Opening.Tally.{
  tally, HasKeys, with_event-HasKeys, update_whisper-HasKeys, update_event-HasKeys, IsCapped,
  update_whisper-IsCapped, with_event-IsCapped, tally-update_event,
}

-- What the bound needs of the tested delivery states and of the statuses.
pub record Suits (q : OpenDeliveryState → Bool) (cap : WhisperStatus → ℕ) : Type 0 where
  pub denial : q not_attempted ≡ false
  pub failure : q failed ≡ false
  pub lapse : cap active ≤ cap expired
  pub lapse_opening : cap opening ≤ cap expired
  pub reserve : cap active + bit (q reserved) ≤ cap opening
  pub complete : cap opening + bit (q delivered) ≤ cap opened + bit (q reserved)
  pub settle : cap opening ≤ cap opened
  pub release : cap opening ≤ cap active + bit (q reserved)

module _ {q : OpenDeliveryState → Bool} {cap : WhisperStatus → ℕ} (s : Suits q cap) where
  abbrev pub Good : Db → Type 0
  Good db = HasKeys db × IsCapped q cap db

  pub insert_event-Good :
      (e : OpenEventRow) (db : Db)
      → Good db
      → ((w : WhisperRow)
          → find_whisper e.whisper_id db ≡ some w
          → w.one_time ≡ true
          → tally q e.whisper_id db.events + bit (q e.delivery_state) ≤ cap w.status)
      → Good (insert_event e db).1
  insert_event-Good e db h new = elim (insert_event-cases e db) [
    | inl refused ↦ rw refused h
    | inr done ↦ rw done (with_event-HasKeys e db h.0, with_event-IsCapped q cap e db new h.1)
  ]

  -- A denial writes at most an event that does not count.
  pub record_denied_open-Good :
      (env : Env) (id : Uuid) (p : ReserveOpenParams) (o : OpenEventOutcome) (db : Db)
      → Good db
      → Good (record_denied_open env id p o db).1
  unfolding record_denied_open denied_event
  record_denied_open-Good env id p o db h =
      elim (Bool-cases
        (ltb 0 (count (is_recent id p.telegram_user_id (now_or env.clock p.now)) db.events))) [
          | inl recent ↦ rw recent h
          | inr fresh ↦ elim (Bool-cases (is_stored_outcome o)) [
            | inr refused ↦ rw (fresh, refused) h
            | inl stored ↦
                rw (fresh, stored)
                  (pure_keeps Good (insert_event _) (λ _. tt) db
                    (insert_event-Good _ db h
                      (λ w found one. ground (arith, s.denial, h.1.bound id w found one))))
          ]
        ]

  pub deny-Good :
      (env : Env) (w : WhisperRow) (p : ReserveOpenParams) (e : Error) (o : OpenEventOutcome)
      (db : Db)
      → Good db
      → Good (deny env w p e o db).1
  unfolding deny
  deny-Good env w p e o db h =
      pure_keeps Good (record_denied_open env w.id p o) (λ _. denied e) db
        (record_denied_open-Good env w.id p o db h)

  -- Another status, or another time stamp, of the row of `id`.
  pub set_status-Good :
      (id : Uuid) (f : WhisperRow → WhisperRow) (db : Db)
      → ((x : WhisperRow) → whisper_key (f x) ≡ whisper_key x)
      → ((x : WhisperRow)
          → find_whisper id db ≡ some x
          → (f x).one_time ≡ true
          → tally q id db.events ≤ cap (f x).status)
      → Good db
      → Good (update_whisper id always f db).1
  set_status-Good id f db keys new h = (
    update_whisper-HasKeys id always f db keys h.0,
    update_whisper-IsCapped q cap id always f db keys (λ x found _ one. new x found one) h.1,
  )
