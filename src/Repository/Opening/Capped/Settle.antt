-- ===== src/Repository/Opening/Capped/Settle.antt =====
-- `CompleteOpen` of internal/repository/opening.go keep the bound: the transactions.
use secretmediabot.Base.{
  ℕ, ℤ, ◌≡◌, refl, sym, ap, ◌∙◌, Bool, true, Option, none, some, Uuid, Time, nat_eq, int_eq,
  string_eq, after,
}
use secretmediabot.Base.Table.{find}
use secretmediabot.Base.Table.Laws.{find-key}
use secretmediabot.Domain.Status.{WhisperStatus, status_eq}
use secretmediabot.Domain.Events.{OpenDeliveryState, is_reserved, is_delivered}
use secretmediabot.Repository.Errors.{conflict, invalid_input}
use secretmediabot.Repository.Rows.{WhisperRow, OpenEventRow, Db}
use secretmediabot.Repository.Tx.{
  pure, raise, require, take, transaction, transaction_keeps, bind_keeps, if_keeps, take_keeps,
  require_keeps, require_state, now_or, ◌>>=◌, ◌>>◌,
}
use secretmediabot.Repository.Mapping.{Env, whisper_key}
use secretmediabot.Repository.Statements.{event_key, update_event, insert_job}
use secretmediabot.Repository.Opening.Params.{CompleteOpenParams}
use secretmediabot.Repository.Opening.Finish.{
  find_event, find_whisper, delivered_event, is_reserved_event, delete_job, queue_deletion,
  settle_event, mark_and_settle, complete_event, complete_whisper, is_settled_by, check_repeated,
  mark_opened, finish_reserved, complete_body, complete_checked, complete_open,
}
use secretmediabot.Repository.Opening.Tally.{HasKeys, IsCapped}
use secretmediabot.Repository.Opening.Capped.{Suits, Good}
use secretmediabot.Repository.Opening.Capped.Finish.{
  event_found, insert_job-Good, settle_event-Good, DeliveryFits, mark_opened-Good,
  mark_opened-DeliveryFits, mark_opened_events,
}

pub find_by_id :
    (id : Uuid) (db : Db) (w : WhisperRow)
    → find_whisper id db ≡ some w
    → find_whisper w.id db ≡ some w
find_by_id id db w found =
    ap (λ k. find_whisper k db) (find-key whisper_key id db.whispers w found) ∙ found

module _ {q : OpenDeliveryState → Bool} {cap : WhisperStatus → ℕ} (s : Suits q cap) where
  delivered-Good :
      (e : OpenEventRow) (w : WhisperRow) (p : CompleteOpenParams) (now : Time) (db : Db)
      → Good s db
      → e.whisper_id ≡ w.id
      → find event_key e.id db.events ≡ some e
      → is_reserved e.delivery_state ≡ true
      → DeliveryFits s w.id db
      → Good s (update_event e.id is_reserved_event (delivered_event p now) db).1
  unfolding DeliveryFits
  delivered-Good e w p now db h mine found res fits =
      settle_event-Good s e (delivered_event p now) db h (λ x. refl) refl found res
        (λ x here one. rw mine (fits x (rw (← mine) here) one))

  queue_deletion-Good :
      (w : WhisperRow) (p : CompleteOpenParams) (message : ℤ) (now : Time) (db : Db)
      → Good s db
      → Good s (queue_deletion w p message now db).1
  queue_deletion-Good w p message now db h =
      if_keeps (Good s) (after p.delete_at now) (insert_job (delete_job w message p.delete_at now))
        (pure tt) db (λ _. insert_job-Good s (delete_job w message p.delete_at now) db h) (λ _. h)

  settle_event-step :
      (e : OpenEventRow) (w : WhisperRow) (p : CompleteOpenParams) (message : ℤ) (now : Time)
      (db : Db)
      → Good s (update_event e.id is_reserved_event (delivered_event p now) db).1
      → Good s (settle_event e w p message now db).1
  settle_event-step e w p message now db h =
      bind_keeps (Good s) (update_event e.id is_reserved_event (delivered_event p now))
        (λ hit. require hit conflict >> queue_deletion w p message now) db h
        (λ hit _.
          require_keeps (Good s) hit conflict (queue_deletion w p message now)
            (update_event e.id is_reserved_event (delivered_event p now) db).1 h
            (λ _. queue_deletion-Good w p message now _ h))

  finish_reserved-Good :
      (e : OpenEventRow) (w : WhisperRow) (p : CompleteOpenParams) (message : ℤ) (now : Time)
      (db : Db)
      → Good s db
      → find_whisper w.id db ≡ some w
      → e.whisper_id ≡ w.id
      → find event_key e.id db.events ≡ some e
      → Good s (finish_reserved e w p message now db).1
  unfolding finish_reserved
  finish_reserved-Good e w p message now db h here mine found =
      require_keeps (Good s) (is_reserved e.delivery_state) conflict
        (mark_and_settle e w p message now) db h
        (λ res.
          bind_keeps (Good s) (mark_opened w p now) (λ _. settle_event e w p message now) db
            (mark_opened-Good s w p now db h here)
            (λ b marked. settle_event-step e w p message now (mark_opened w p now db).1 (
              delivered-Good e w p now _ (mark_opened-Good s w p now db h here) mine
                (rw (mark_opened_events w p now db) found) res
                (mark_opened-DeliveryFits s w p now db b h here marked))))

  complete_event-Good :
      (e : OpenEventRow) (p : CompleteOpenParams) (message : ℤ) (now : Time) (db : Db)
      → Good s db
      → e.whisper_id ≡ p.whisper_id
      → find event_key e.id db.events ≡ some e
      → Good s (complete_event p message now e db).1
  unfolding check_repeated
  complete_event-Good e p message now db h mine found =
      require_keeps (Good s) (is_settled_by p e) conflict
        (take (find_whisper p.whisper_id) >>= complete_whisper e p message now) db h
        (λ _.
          take_keeps (Good s) (find_whisper p.whisper_id) (complete_whisper e p message now) db h
            (λ w here.
              if_keeps (Good s) (is_delivered e.delivery_state) (check_repeated w message)
                (finish_reserved e w p message now) db (λ _. rw (require_state _ conflict db) h)
                (λ _.
                  finish_reserved-Good e w p message now db h (find_by_id p.whisper_id db w here)
                    (mine ∙ sym (find-key whisper_key p.whisper_id db.whispers w here)) found)))

  complete_body-Good :
      (p : CompleteOpenParams) (message : ℤ) (now : Time) (db : Db)
      → Good s db
      → Good s (complete_body p message now db).1
  unfolding complete_body
  complete_body-Good p message now db h =
      take_keeps (Good s) (find_event p.event_id p.whisper_id) (complete_event p message now) db h
        (λ e read.
          let (found, mine) = event_found p.event_id p.whisper_id db e h.0 read in
          complete_event-Good e p message now db h mine found)

  complete_checked-Good :
      (p : CompleteOpenParams) (m : Option ℤ) (now : Time) (db : Db)
      → Good s db
      → Good s (complete_checked p m now db).1
  unfolding complete_checked
  complete_checked-Good p none now db h = h
  complete_checked-Good p (some message) now db h =
      if_keeps (Good s) _ (raise invalid_input) (transaction (complete_body p message now)) db
        (λ _. h)
        (λ _.
          transaction_keeps (Good s) (complete_body p message now) db h
            (complete_body-Good p message now db h))

  -- `CompleteOpen` keeps the bound.
  pub complete_open-Good :
      (env : Env) (p : CompleteOpenParams) (db : Db)
      → HasKeys db × IsCapped q cap db
      → HasKeys (complete_open env p db).1 × IsCapped q cap (complete_open env p db).1
  unfolding complete_open
  complete_open-Good env p db h =
      complete_checked-Good p p.ephemeral_message_id (now_or env.clock p.now) db h
