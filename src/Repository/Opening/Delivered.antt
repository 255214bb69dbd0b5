-- ===== src/Repository/Opening/Delivered.antt =====
-- `CompleteOpen` of internal/repository/opening.go: what a success leaves.
use secretmediabot.Base.{
  ℤ, ◌≡◌, refl, true, Option, none, some, Time, nat_eq, int_eq, arith, after, Bool-cases, inl, inr,
}
use secretmediabot.Base.Table.{find, find_where-passes}
use secretmediabot.Base.Table.Laws.{find-modify_hit}
use secretmediabot.Domain.Events.{OpenDeliveryState, reserved, delivered, is_reserved, is_delivered}
use secretmediabot.Repository.Errors.{ok, conflict, invalid_input}
use secretmediabot.Repository.Rows.{WhisperRow, OpenEventRow, EphemeralDeleteJobRow, Db}
use secretmediabot.Repository.Tx.{
  pure, raise, require, take, transaction, now_or, require_state, ◌>>=◌, ◌>>◌,
}
use secretmediabot.Repository.Mapping.{Env}
use secretmediabot.Repository.Statements.{event_key, update_event, insert_job, has_message}
use secretmediabot.Repository.Success.{
  Yields, bind-Yields, take-Yields, require-Yields, if-Yields, transaction-Yields,
}
use secretmediabot.Repository.Opening.Params.{CompleteOpenParams}
use secretmediabot.Repository.Opening.Finish.{
  find_event, find_whisper, delivered_event, is_reserved_event, delete_job, check_repeated,
  mark_opened, queue_deletion, settle_event, mark_and_settle, finish_reserved, complete_whisper,
  is_settled_by, complete_event, complete_body, complete_checked, complete_open,
}
use secretmediabot.Repository.Opening.Tally.{HasKeys}
use secretmediabot.Repository.Opening.Capped.Finish.{event_found, mark_opened_events}

delivered_of : (d : OpenDeliveryState) → is_delivered d ≡ true → d ≡ delivered
delivered_of delivered h = refl
delivered_of reserved h = cc
delivered_of OpenDeliveryState.not_attempted h = cc
delivered_of OpenDeliveryState.failed h = cc
delivered_of (OpenDeliveryState.other t) h = cc

module _ (p : CompleteOpenParams) where
  -- The event that the call names is delivered.
  unfoldable pub IsSettled : Db → Type 0
  IsSettled db =
      (e : OpenEventRow) × (e.id ≡ p.event_id)
      × (e.whisper_id ≡ p.whisper_id)
      × (find event_key e.id db.events ≡ some e)
      × (e.delivery_state ≡ delivered)

  insert_job-IsSettled :
      (j : EphemeralDeleteJobRow) (db : Db) → IsSettled db → IsSettled (insert_job j db).1
  unfolding insert_job IsSettled
  insert_job-IsSettled j db h = elim (Bool-cases (has_message j db.jobs)) [
    | inl clash ↦ rw clash h
    | inr fresh ↦ rw fresh h
  ]

  settle_event-Yields :
      (e : OpenEventRow) (w : WhisperRow) (message : ℤ) (now : Time) (db : Db)
      → e.id ≡ p.event_id
      → e.whisper_id ≡ p.whisper_id
      → find event_key e.id db.events ≡ some e
      → is_reserved e.delivery_state ≡ true
      → Yields (settle_event e w p message now) db IsSettled
  unfolding IsSettled
  settle_event-Yields e w message now db id mine found res =
      let settled : IsSettled (update_event e.id is_reserved_event (delivered_event p now) db).1 = (
        delivered_event p now e,
        id,
        mine,
        find-modify_hit event_key e.id is_reserved_event (delivered_event p now) db.events e
            (λ x. refl) found res,
        refl,
      ) in
      bind-Yields IsSettled (update_event e.id is_reserved_event (delivered_event p now))
        (λ hit. require hit conflict >> queue_deletion w p message now) db
        (λ hit _. require-Yields IsSettled hit conflict (queue_deletion w p message now) _ (λ _.
          if-Yields IsSettled (after p.delete_at now)
            (insert_job (delete_job w message p.delete_at now)) (pure tt) _
            (λ _ _ _. insert_job-IsSettled (delete_job w message p.delete_at now) _ settled)
            (λ _ _ _. settled)))

  finish_reserved-Yields :
      (e : OpenEventRow) (w : WhisperRow) (message : ℤ) (now : Time) (db : Db)
      → e.id ≡ p.event_id
      → e.whisper_id ≡ p.whisper_id
      → find event_key e.id db.events ≡ some e
      → Yields (finish_reserved e w p message now) db IsSettled
  unfolding finish_reserved
  finish_reserved-Yields e w message now db id mine found =
      require-Yields IsSettled (is_reserved e.delivery_state) conflict
        (mark_and_settle e w p message now) db
        (λ res.
          bind-Yields IsSettled (mark_opened w p now) (λ _. settle_event e w p message now) db
            (λ _ _.
              settle_event-Yields e w message now (mark_opened w p now db).1 id mine
                (rw (mark_opened_events w p now db) found) res))

  complete_event-Yields :
      (e : OpenEventRow) (message : ℤ) (now : Time) (db : Db)
      → e.id ≡ p.event_id
      → e.whisper_id ≡ p.whisper_id
      → find event_key e.id db.events ≡ some e
      → Yields (complete_event p message now e) db IsSettled
  unfolding check_repeated IsSettled
  complete_event-Yields e message now db id mine found =
      require-Yields IsSettled (is_settled_by p e) conflict
        (take (find_whisper p.whisper_id) >>= complete_whisper e p message now) db
        (λ _.
          take-Yields IsSettled (find_whisper p.whisper_id) (complete_whisper e p message now) db
            (λ w _.
              if-Yields IsSettled (is_delivered e.delivery_state) (check_repeated w message)
                (finish_reserved e w p message now) db
                (λ done _ _.
                  rw (require_state _ conflict db)
                    (e, id, mine, found, delivered_of e.delivery_state done))
                (λ _. finish_reserved-Yields e w message now db id mine found)))

  complete_body-Yields :
      (message : ℤ) (now : Time) (db : Db)
      → HasKeys db
      → Yields (complete_body p message now) db IsSettled
  unfolding complete_body find_event
  complete_body-Yields message now db keys =
      take-Yields IsSettled (find_event p.event_id p.whisper_id) (complete_event p message now) db
        (λ e read.
          let (found, mine) = event_found p.event_id p.whisper_id db e keys read in
          complete_event-Yields e message now db
            (ground (arith, find_where-passes _ db.events e read)) mine found)

  complete_checked-Yields :
      (m : Option ℤ) (now : Time) (db : Db)
      → HasKeys db
      → Yields (complete_checked p m now) db IsSettled
  unfolding complete_checked
  complete_checked-Yields none now db keys b h = cc
  complete_checked-Yields (some message) now db keys b h =
      if-Yields IsSettled _ (raise invalid_input) (transaction (complete_body p message now)) db
        (λ _ b h. cc)
        (λ _.
          transaction-Yields IsSettled (complete_body p message now) db
            (complete_body-Yields message now db keys))
        b h

-- Where keys are distinct, a CompleteOpen that returns no error leaves the event that it names
-- delivered, whether it is the first call or a repeated one.
pub complete_open-delivers :
    (env : Env) (p : CompleteOpenParams) (db : Db)
    → HasKeys db
    → (complete_open env p db).0 ≡ ok tt
    → (e : OpenEventRow) × (e.id ≡ p.event_id)
      × (e.whisper_id ≡ p.whisper_id)
      × (find event_key e.id (complete_open env p db).1.events ≡ some e)
      × (e.delivery_state ≡ delivered)
unfolding complete_open IsSettled
complete_open-delivers env p db keys done =
    complete_checked-Yields p p.ephemeral_message_id (now_or env.clock p.now) db keys tt done
