-- ===== src/Repository/Opening/Capped/Lease.antt =====
-- `ReserveOpen` of internal/repository/opening.go keeps the bound: the lease and the event.
use secretmediabot.Base.{
  ℕ, ◌+◌, ◌≤◌, ◌≡◌, refl, sym, ap, ◌∙◌, Bool, true, some, Uuid, Time, ◌==◌, nat_eq, arith, int_eq,
  Bool-cases, inl, inr,
}
use secretmediabot.Base.Table.{matches}
use secretmediabot.Base.Table.Laws.{bit, find-modify_hit, matches-true}
use secretmediabot.Domain.Status.{WhisperStatus, active, status_eq, published, publish_eq}
use secretmediabot.Domain.Events.{OpenDeliveryState, denied_not_active, reserved}
use secretmediabot.Repository.Errors.{ok, not_active}
use secretmediabot.Repository.Rows.{WhisperRow, Db}
use secretmediabot.Repository.Tx.{bind_keeps}
use secretmediabot.Repository.Mapping.{Env, whisper_key, load_whisper_projection}
use secretmediabot.Repository.Statements.{update_whisper, insert_event}
use secretmediabot.Repository.Opening.Params.{ReserveOpenParams}
use secretmediabot.Repository.Opening.Audit.{opening_row}
use secretmediabot.Repository.Opening.Reserve.{
  grant, reserve_event, take_opening_lease, reserved_event, is_active_row,
}
use secretmediabot.Repository.Opening.Content.{load_delivery_content}
use secretmediabot.Repository.Opening.Finish.{find_whisper}
use secretmediabot.Repository.Opening.Tally.{tally, update_whisper-HasKeys, update_whisper-IsCapped}
use secretmediabot.Repository.Opening.Capped.{Suits, Good, insert_event-Good, deny-Good}

-- The reads after the new event leave the tables alone.
reserve_event_state :
    (env : Env) (w : WhisperRow) (p : ReserveOpenParams) (now : Time) (db : Db)
    → (reserve_event env w p now db).1 ≡ (insert_event (reserved_event w.id p now) db).1
unfolding reserve_event load_whisper_projection load_delivery_content
reserve_event_state env w p now db = ground arith

module _ {q : OpenDeliveryState → Bool} {cap : WhisperStatus → ℕ} (s : Suits q cap) where
  -- The row at `id`, if it is one-time, has room for one more reserved event.
  HasRoom : Uuid → Db → Type 0
  HasRoom id db =
      (x : WhisperRow)
      → find_whisper id db ≡ some x
      → x.one_time ≡ true
      → tally q id db.events + bit (q reserved) ≤ cap x.status

  -- The row at the key of `w` agrees with `w` on `one_time` and is under the bound of `active`.
  unfoldable pub IsOpenable : WhisperRow → Db → Type 0
  IsOpenable w db =
      (x : WhisperRow)
      → find_whisper w.id db ≡ some x
      → (x.one_time ≡ w.one_time) × (w.one_time ≡ true → tally q w.id db.events ≤ cap active)

  lease-Good :
      (w : WhisperRow) (p : ReserveOpenParams) (now : Time) (db : Db)
      → Good s db
      → IsOpenable w db
      → Good s (update_whisper w.id is_active_row (opening_row p now) db).1
  unfolding IsOpenable
  lease-Good w p now db h o = (
    update_whisper-HasKeys w.id is_active_row (opening_row p now) db (λ x. refl) h.0,
    update_whisper-IsCapped q cap w.id is_active_row (opening_row p now) db (λ x. refl)
        (λ x found pass one. omega (arith, (o x found).1 (sym (o x found).0 ∙ one), s.reserve)) h.1,
  )

  lease-HasRoom :
      (w : WhisperRow) (p : ReserveOpenParams) (now : Time) (db : Db)
      → IsOpenable w db
      → matches whisper_key w.id is_active_row db.whispers ≡ true
      → HasRoom w.id (update_whisper w.id is_active_row (opening_row p now) db).1
  unfolding IsOpenable HasRoom
  lease-HasRoom w p now db o hit x found one =
      let (v, old, pass) = matches-true whisper_key w.id is_active_row db.whispers hit in
      let made : some x ≡ some (opening_row p now v) =
        sym found
        ∙ find-modify_hit whisper_key w.id is_active_row (opening_row p now) db.whispers v
            (λ r. refl) old pass in
      let same : x ≡ opening_row p now v = ground arith in
      omega (
        arith,
        s.reserve,
        (o v old).1 (sym (o v old).0 ∙ (sym (ap (λ (r : WhisperRow). r.one_time) same) ∙ one)),
        ap (λ (r : WhisperRow). cap r.status) same,
      )

  take_opening_lease-Good :
      (w : WhisperRow) (p : ReserveOpenParams) (now : Time) (db : Db)
      → Good s db
      → IsOpenable w db
      → Good s (take_opening_lease w p now db).1
  unfolding take_opening_lease
  take_opening_lease-Good w p now db h o = ground (arith, lease-Good w p now db h o)

  take_opening_lease-HasRoom :
      (w : WhisperRow) (p : ReserveOpenParams) (now : Time) (db : Db)
      → IsOpenable w db
      → (take_opening_lease w p now db).0 ≡ ok tt
      → HasRoom w.id (take_opening_lease w p now db).1
  unfolding take_opening_lease HasRoom IsOpenable
  take_opening_lease-HasRoom w p now db o done = elim (Bool-cases w.one_time) [
    | inl one ↦ elim (Bool-cases (matches whisper_key w.id is_active_row db.whispers)) [
      | inl hit ↦ rw (one, hit) (lease-HasRoom w p now db o hit)
      | inr miss ↦ cc (rw (one, miss) at done)
    ]
    | inr many ↦ rw many (λ x found one. cc ((o x found).0, many, one))
  ]

  -- What follows the lease in `grant`: the event, and reads that change nothing.
  reserve_event-Good :
      (env : Env) (w : WhisperRow) (p : ReserveOpenParams) (now : Time) (db : Db)
      → Good s db
      → HasRoom w.id db
      → Good s (reserve_event env w p now db).1
  unfolding reserved_event HasRoom
  reserve_event-Good env w p now db h room =
      rw (reserve_event_state env w p now db)
        (insert_event-Good s (reserved_event w.id p now) db h room)

  -- The reserved event fits where the row has room for it.
  pub grant-Good :
      (env : Env) (w : WhisperRow) (p : ReserveOpenParams) (now : Time) (db : Db)
      → Good s db
      → IsOpenable w db
      → Good s (grant env w p now db).1
  unfolding grant reserved_event HasRoom
  grant-Good env w p now db h o = elim (Bool-cases (w.publish_state == published)) [
    | inr hidden ↦ rw hidden (deny-Good s env w p not_active denied_not_active db h)
    | inl shown ↦ rw shown (
        bind_keeps (Good s) (take_opening_lease w p now) _ db
          (take_opening_lease-Good w p now db h o)
          (λ _ done.
            reserve_event-Good env w p now _ (take_opening_lease-Good w p now db h o)
              (take_opening_lease-HasRoom w p now db o done)))
  ]
