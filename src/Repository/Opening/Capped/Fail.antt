-- ===== src/Repository/Opening/Capped/Fail.antt =====
-- `FailOpen` of internal/repository/opening.go keep the bound: the transactions.
use secretmediabot.Base.{
  ℕ, beq_refl, ◌≤◌, ◌≡◌, refl, sym, ap, ◌∙◌, Bool, true, ◌&&◌, some, Time, ◌==◌, nat_eq, int_eq,
  string_eq, arith, Bool-cases, inl, inr, if◌then◌else◌, after,
}
use secretmediabot.Base.Table.{find}
use secretmediabot.Base.Table.Laws.{bit, find-key}
use secretmediabot.Domain.Status.{WhisperStatus, active, opening, expired, status_eq}
use secretmediabot.Domain.Events.{OpenDeliveryState, is_reserved}
use secretmediabot.Repository.Errors.{conflict, invalid_input}
use secretmediabot.Repository.Rows.{WhisperRow, OpenEventRow, Db}
use secretmediabot.Repository.Tx.{
  raise, require, transaction, transaction_keeps, bind_keeps, if_keeps, take_keeps, require_keeps,
  now_or, ◌>>◌,
}
use secretmediabot.Repository.Mapping.{Env, whisper_key}
use secretmediabot.Repository.Statements.{event_key, update_whisper, update_event}
use secretmediabot.Repository.Opening.Params.{FailOpenParams}
use secretmediabot.Repository.Opening.Audit.{always}
use secretmediabot.Repository.Opening.Finish.{
  find_event, find_whisper, is_callback, is_reserved_event, fail_whisper, is_failed_by,
  settle_failure, fail_event, failed_event, released_row, release_whisper, fail_body, fail_open,
}
use secretmediabot.Repository.Opening.Tally.{tally, HasKeys, IsCapped, tally-update_event}
use secretmediabot.Repository.Opening.Capped.{Suits, Good, set_status-Good}
use secretmediabot.Repository.Opening.Capped.Finish.{reserved_of, event_found, settle_event-Good}

module _ {q : OpenDeliveryState → Bool} {cap : WhisperStatus → ℕ} (s : Suits q cap) where
  released-Good :
      (w : WhisperRow) (now : Time) (db : Db)
      → Good s db
      → tally q w.id db.events ≤ cap active
      → Good s
          (update_whisper w.id always
            (released_row (if after w.expires_at now then active else expired) now)
            db).1
  released-Good w now db h room =
      set_status-Good s w.id _ db (λ x. refl) (λ x found one. ground (arith, s.lapse, room)) h

  release_whisper-Good :
      (w : WhisperRow) (p : FailOpenParams) (now : Time) (db : Db)
      → Good s db
      → (w.one_time ≡ true → w.status ≡ opening → tally q w.id db.events ≤ cap active)
      → Good s (release_whisper w p now db).1
  unfolding release_whisper
  release_whisper-Good w p now db h room =
      elim (Bool-cases (
        w.one_time
        && w.status == opening
        && is_callback w.opening_callback_query_id p.callback_query_id)) [
          | inr other ↦ rw other h
          | inl mine ↦ rw mine (
              released-Good w now db h
                (room (ground arith) (ground (arith, status_eq.beq_iff w.status opening))))
        ]

  failed-Good :
      (e : OpenEventRow) (p : FailOpenParams) (now : Time) (db : Db)
      → Good s db
      → find event_key e.id db.events ≡ some e
      → is_reserved e.delivery_state ≡ true
      → Good s (update_event e.id is_reserved_event (failed_event p now) db).1
  failed-Good e p now db h found res =
      settle_event-Good s e (failed_event p now) db h (λ x. refl) refl found res
        (λ x here one. ground (arith, s.failure, h.1.bound e.whisper_id x here one))

  -- The failed event no longer counts.
  failed-room :
      (e : OpenEventRow) (p : FailOpenParams) (now : Time) (db : Db) (w : WhisperRow)
      → Good s db
      → find event_key e.id db.events ≡ some e
      → is_reserved e.delivery_state ≡ true
      → find_whisper e.whisper_id db ≡ some w
      → w.one_time ≡ true
      → w.status ≡ opening
      → tally q e.whisper_id (update_event e.id is_reserved_event (failed_event p now) db).1.events
        ≤ cap active
  failed-room e p now db w h found res here one st = ground (
    arith,
    tally-update_event q cap e.id is_reserved_event (failed_event p now) db e e.whisper_id found
        res,
    h.1.bound e.whisper_id w here one,
    ap cap st,
    s.release,
    s.failure,
    beq_refl e.whisper_id,
    ap (λ d. bit (q d)) (reserved_of e.delivery_state res),
  )

  settle_failure-Good :
      (e : OpenEventRow) (p : FailOpenParams) (now : Time) (db : Db)
      → Good s db
      → e.whisper_id ≡ p.whisper_id
      → find event_key e.id db.events ≡ some e
      → is_reserved e.delivery_state ≡ true
      → Good s (settle_failure p now e db).1
  settle_failure-Good e p now db h mine found res =
      let freed = failed-Good e p now db h found res in
      let after_update = (update_event e.id is_reserved_event (failed_event p now) db).1 in
      bind_keeps (Good s) (update_event e.id is_reserved_event (failed_event p now))
        (λ hit. require hit conflict >> fail_whisper p now) db freed
        (λ hit _. require_keeps (Good s) hit conflict (fail_whisper p now) after_update freed (λ _.
          take_keeps (Good s) (find_whisper p.whisper_id) (λ w. release_whisper w p now)
            after_update freed
            (λ w here.
              let key = find-key whisper_key p.whisper_id db.whispers w here in
              release_whisper-Good w p now after_update freed (λ one st.
                rw (← (mine ∙ sym key))
                  (failed-room e p now db w h found res (rw mine here) one st)))))

  fail_body-Good :
      (p : FailOpenParams) (now : Time) (db : Db) → Good s db → Good s (fail_body p now db).1
  unfolding fail_body
  fail_body-Good p now db h =
      take_keeps (Good s) (find_event p.event_id p.whisper_id) (fail_event p now) db h (λ e read.
        let (found, mine) = event_found p.event_id p.whisper_id db e h.0 read in
        require_keeps (Good s) (is_failed_by p e) conflict (settle_failure p now e) db h
          (λ ok. settle_failure-Good e p now db h mine found (ground arith)))

  -- `FailOpen` keeps the bound.
  pub fail_open-Good :
      (env : Env) (p : FailOpenParams) (db : Db)
      → HasKeys db × IsCapped q cap db
      → HasKeys (fail_open env p db).1 × IsCapped q cap (fail_open env p db).1
  unfolding fail_open
  fail_open-Good env p db h =
      if_keeps (Good s) _ (raise invalid_input) (transaction (fail_body p (now_or env.clock p.now)))
        db (λ _. h)
        (λ _.
          transaction_keeps (Good s) (fail_body p (now_or env.clock p.now)) db h
            (fail_body-Good p (now_or env.clock p.now) db h))
