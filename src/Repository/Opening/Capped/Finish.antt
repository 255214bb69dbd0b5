-- ===== src/Repository/Opening/Capped/Finish.antt =====
-- `CompleteOpen` and `FailOpen` of internal/repository/opening.go keep the bound.
use secretmediabot.Base.{
  ℕ, ◌+◌, ◌≤◌, ◌≡◌, refl, sym, ap, ◌∙◌, Bool, true, false, ◌&&◌, some, Uuid, Time, ◌==◌, nat_eq,
  int_eq, string_eq, arith, Bool-cases, inl, inr,
}
use secretmediabot.Base.Table.{find, find_where-passes}
use secretmediabot.Base.Table.Laws.{bit, find_where-find, find-modify_hit}
use secretmediabot.Domain.Status.{WhisperStatus, opening, status_eq}
use secretmediabot.Domain.Events.{OpenDeliveryState, reserved, delivered, failed, is_reserved}
use secretmediabot.Repository.Errors.{ok}
use secretmediabot.Repository.Rows.{WhisperRow, OpenEventRow, EphemeralDeleteJobRow, Db}
use secretmediabot.Repository.Mapping.{whisper_key}
use secretmediabot.Repository.Statements.{
  event_key, update_whisper, update_event, insert_job, has_message,
}
use secretmediabot.Repository.Opening.Params.{CompleteOpenParams}
use secretmediabot.Repository.Opening.Audit.{always}
use secretmediabot.Repository.Opening.Finish.{
  find_event, find_whisper, is_callback, opened_row, seen_row, is_reserved_event, mark_opened,
}
use secretmediabot.Repository.Opening.Tally.{
  tally, HasKeys, update_event-HasKeys, update_event-IsCapped,
}
use secretmediabot.Repository.Opening.Capped.{Suits, Good, set_status-Good}

pub reserved_of : (d : OpenDeliveryState) → is_reserved d ≡ true → d ≡ reserved
reserved_of reserved h = refl
reserved_of OpenDeliveryState.not_attempted h = cc
reserved_of delivered h = cc
reserved_of failed h = cc
reserved_of (OpenDeliveryState.other t) h = cc

pub event_found :
    (id : ℕ) (whisper : Uuid) (db : Db) (e : OpenEventRow)
    → HasKeys db
    → find_event id whisper db ≡ some e
    → (find event_key e.id db.events ≡ some e) × (e.whisper_id ≡ whisper)
unfolding find_event
event_found id whisper db e h found = (
  find_where-find event_key _ db.events e h.events_distinct found,
  ground (arith, find_where-passes _ db.events e found),
)

pub mark_opened_events :
    (w : WhisperRow) (p : CompleteOpenParams) (now : Time) (db : Db)
    → (mark_opened w p now db).1.events ≡ db.events
unfolding mark_opened
mark_opened_events w p now db = ground arith

module _ {q : OpenDeliveryState → Bool} {cap : WhisperStatus → ℕ} (s : Suits q cap) where
  pub insert_job-Good :
      (j : EphemeralDeleteJobRow) (db : Db) → Good s db → Good s (insert_job j db).1
  unfolding insert_job
  insert_job-Good j db h = elim (Bool-cases (has_message j db.jobs)) [
    | inl clash ↦ rw clash h
    | inr fresh ↦ rw fresh (
      record {
        whispers_distinct = h.0.whispers_distinct;
        events_distinct = h.0.events_distinct;
        events_below = h.0.events_below;
      },
      record { bound = h.1.bound },
    )
  ]

  -- The update of a reserved event that its whisper's status leaves room for.
  pub settle_event-Good :
      (e : OpenEventRow) (f : OpenEventRow → OpenEventRow) (db : Db)
      → Good s db
      → ((x : OpenEventRow) → event_key (f x) ≡ event_key x)
      → (f e).whisper_id ≡ e.whisper_id
      → find event_key e.id db.events ≡ some e
      → is_reserved e.delivery_state ≡ true
      → ((w : WhisperRow)
          → find_whisper e.whisper_id db ≡ some w
          → w.one_time ≡ true
          → tally q e.whisper_id db.events + bit (q (f e).delivery_state)
            ≤ cap w.status + bit (q reserved))
      → Good s (update_event e.id is_reserved_event f db).1
  settle_event-Good e f db h keys stays found res new = (
    update_event-HasKeys e.id is_reserved_event f db keys h.0,
    update_event-IsCapped q cap e.id is_reserved_event f db e found res stays
        (λ w here one.
          omega (arith, new w here one, ap (λ d. bit (q d)) (reserved_of e.delivery_state res)))
        h.1,
  )

  -- The whisper's status leaves room for the delivered event.
  unfoldable pub DeliveryFits : Uuid → Db → Type 0
  DeliveryFits id db =
      (x : WhisperRow)
      → find_whisper id db ≡ some x
      → x.one_time ≡ true
      → tally q id db.events + bit (q delivered) ≤ cap x.status + bit (q reserved)

  opened-Good :
      (w : WhisperRow) (now : Time) (db : Db)
      → Good s db
      → find_whisper w.id db ≡ some w
      → (w.one_time ≡ true → w.status ≡ opening)
      → Good s (update_whisper w.id always (opened_row now) db).1
  opened-Good w now db h here st =
      set_status-Good s w.id (opened_row now) db (λ x. refl)
        (λ x found one.
          let same : x ≡ w = ground (arith, here) in
          let mine : w.one_time ≡ true = ap (λ (r : WhisperRow). r.one_time) (sym same) ∙ one in
          omega (arith, h.1.bound w.id w here mine, ap cap (st mine), s.settle))
        h

  opened-DeliveryFits :
      (w : WhisperRow) (now : Time) (db : Db)
      → Good s db
      → find_whisper w.id db ≡ some w
      → (w.one_time ≡ true → w.status ≡ opening)
      → DeliveryFits w.id (update_whisper w.id always (opened_row now) db).1
  unfolding DeliveryFits
  opened-DeliveryFits w now db h here st x found one =
      let made : some x ≡ some (opened_row now w) =
        sym found
        ∙ find-modify_hit whisper_key w.id always (opened_row now) db.whispers w (λ r. refl) here
            refl in
      let same : x ≡ opened_row now w = ground arith in
      let mine : w.one_time ≡ true = ap (λ (r : WhisperRow). r.one_time) (sym same) ∙ one in
      omega (
        arith,
        h.1.bound w.id w here mine,
        ap cap (st mine),
        s.complete,
        ap (λ (r : WhisperRow). cap r.status) same,
      )

  seen-Good :
      (w : WhisperRow) (now : Time) (db : Db)
      → Good s db
      → Good s (update_whisper w.id always (seen_row now) db).1
  seen-Good w now db h =
      set_status-Good s w.id (seen_row now) db (λ x. refl)
        (λ x found one. h.1.bound w.id x found one) h

  seen-DeliveryFits :
      (w : WhisperRow) (now : Time) (db : Db)
      → find_whisper w.id db ≡ some w
      → w.one_time ≡ false
      → DeliveryFits w.id (update_whisper w.id always (seen_row now) db).1
  unfolding DeliveryFits
  seen-DeliveryFits w now db here many x found one =
      let made : some x ≡ some (seen_row now w) =
        sym found
        ∙ find-modify_hit whisper_key w.id always (seen_row now) db.whispers w (λ r. refl) here
            refl in
      let same : x ≡ seen_row now w = ground arith in
      cc (ap (λ (r : WhisperRow). r.one_time) same, one, many)

  -- Marking the whisper keeps the bound, and when it succeeds the delivered event fits.
  pub mark_opened-Good :
      (w : WhisperRow) (p : CompleteOpenParams) (now : Time) (db : Db)
      → Good s db
      → find_whisper w.id db ≡ some w
      → Good s (mark_opened w p now db).1
  unfolding mark_opened
  mark_opened-Good w p now db h here = elim (Bool-cases w.one_time) [
    | inr many ↦ rw many (seen-Good w now db h)
    | inl one ↦
        elim (Bool-cases
          (w.status == opening && is_callback w.opening_callback_query_id p.callback_query_id)) [
            | inr lost ↦ rw (one, lost) h
            | inl mine ↦
                rw (one, mine)
                  (opened-Good w now db h here
                    (λ _. ground (arith, status_eq.beq_iff w.status opening)))
          ]
  ]

  pub mark_opened-DeliveryFits :
      (w : WhisperRow) (p : CompleteOpenParams) (now : Time) (db : Db) (b : Bool)
      → Good s db
      → find_whisper w.id db ≡ some w
      → (mark_opened w p now db).0 ≡ ok b
      → DeliveryFits w.id (mark_opened w p now db).1
  unfolding mark_opened
  mark_opened-DeliveryFits w p now db b h here done = elim (Bool-cases w.one_time) [
    | inr many ↦ rw many (seen-DeliveryFits w now db here many)
    | inl one ↦
        elim (Bool-cases
          (w.status == opening && is_callback w.opening_callback_query_id p.callback_query_id)) [
            | inr lost ↦ cc (rw (one, lost) at done)
            | inl mine ↦
                rw (one, mine)
                  (opened-DeliveryFits w now db h here
                    (λ _. ground (arith, status_eq.beq_iff w.status opening)))
          ]
  ]
