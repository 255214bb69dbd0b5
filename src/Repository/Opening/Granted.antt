-- ===== src/Repository/Opening/Granted.antt =====
-- `ReserveOpen` of internal/repository/opening.go: what a reservation means.
use secretmediabot.Base.{
  ◌<◌, ◌≡◌, refl, sym, ap, ◌∙◌, false, ◌&&◌, ◌||◌, some, Time, ◌==◌, nat_eq, int_eq, arith,
  Bool-cases, inl, inr, ◌⊎◌, after, if◌then◌else◌,
}
use secretmediabot.Domain.Status.{
  WhisperStatus, active, opening, opened, revoked, expired, status_eq, published, publish_eq,
}
use secretmediabot.Domain.Events.{
  denied_ambiguous, denied_revoked, denied_not_active, denied_already_opened, denied_wrong_user,
  OpenEventOutcome, denied_expired,
}
use secretmediabot.Repository.Errors.{
  open_ambiguous, not_active, unauthorized, already_opened, Error, Result, ok, err,
}
use secretmediabot.Repository.Rows.{WhisperRow, Db}
use secretmediabot.Repository.Tx.{
  Tx, pure, continue, roll_back, transaction, take, take_state, take_found, now_or, ◌>>=◌,
}
use secretmediabot.Repository.Mapping.{Env}
use secretmediabot.Repository.Opening.Params.{ReserveOpenParams, OpenReservation}
use secretmediabot.Repository.Opening.Audit.{
  record_denied_open, has_reserved_open_event, reactivate_row, expire_locked_whisper,
}
use secretmediabot.Repository.Opening.Reserve.{
  Verdict, granted, denied, deny, grant, lease_runs, reserve_opening, reserve_status, reserve_found,
  by_token, reserve_body, verdict_result, is_bad_reservation, reserve_open,
}

continue-ok :
    {A B : Type 0} (r : Result A) (f : A → Tx B) (db : Db) (b : B)
    → (continue r f db).0 ≡ ok b
    → (a : A) × (r ≡ ok a) × ((f a db).0 ≡ ok b)
continue-ok (ok a) f db b h = (a, refl, h)
continue-ok (err e) f db b h = cc

-- A chain of two actions that succeeds has a first and a second success.
bind-ok :
    {A B : Type 0} (m : Tx A) (f : A → Tx B) (db : Db) (b : B)
    → ((m >>= f) db).0 ≡ ok b
    → (a : A) × ((m db).0 ≡ ok a) × ((f a (m db).1).0 ≡ ok b)
bind-ok m f db b h = continue-ok (m db).0 f (m db).1 b h

roll_back-ok :
    {A : Type 0} (r : Result A × Db) (db : Db) (a : A) → (roll_back db r).0 ≡ ok a → r.0 ≡ ok a
roll_back-ok (ok x, d) db a h = h
roll_back-ok (err e, d) db a h = cc

verdict_result-granted :
    (v : Verdict) (db : Db) (r : OpenReservation) → (verdict_result v db).0 ≡ ok r → v ≡ granted r
unfolding verdict_result
verdict_result-granted (granted s) db r h = ground (arith, h)
verdict_result-granted (denied e) db r h = cc

deny-denied :
    (env : Env) (w : WhisperRow) (p : ReserveOpenParams) (e : Error) (o : OpenEventOutcome)
    (db : Db) (r : OpenReservation)
    → (deny env w p e o db).0 ≡ ok (granted r)
    → ⊥
unfolding deny
deny-denied env w p e o db r h =
    let (_, _, last) =
      bind-ok (record_denied_open env w.id p o) (λ _. pure (denied e)) db (granted r) h in
    cc

grant-granted :
    (env : Env) (w : WhisperRow) (p : ReserveOpenParams) (now : Time) (db : Db)
    (r : OpenReservation)
    → (grant env w p now db).0 ≡ ok (granted r)
    → w.publish_state ≡ published
unfolding grant
grant-granted env w p now db r h = elim (Bool-cases (w.publish_state == published)) [
  | inl shown ↦ (publish_eq.beq_iff w.publish_state published).0 shown
  | inr hidden ↦ absurd (deny-denied env w p not_active denied_not_active db r (rw hidden at h))
]

-- The status of a row that may be granted: active, or opening with a lapsed lease and, if it is
-- one-time, no reserved event.
unfoldable pub CanReserve : WhisperStatus → WhisperRow → Time → Db → Type 0
CanReserve st w now db =
    (st ≡ active)
    ⊎ ((st ≡ opening)
        × (lease_runs w.opening_lease_until now ≡ false)
        × ((w.one_time && has_reserved_open_event w.id db) ≡ false))

reserve_opening-granted :
    (env : Env) (w : WhisperRow) (p : ReserveOpenParams) (now : Time) (db : Db)
    (r : OpenReservation)
    → (reserve_opening env w p now db).0 ≡ ok (granted r)
    → CanReserve opening w now db × (w.publish_state ≡ published)
unfolding reserve_opening CanReserve
reserve_opening-granted env w p now db r h =
    elim (Bool-cases (lease_runs w.opening_lease_until now)) [
      | inl runs ↦ absurd (deny-denied env w p not_active denied_not_active db r (rw runs at h))
      | inr lapsed ↦ elim (Bool-cases (w.one_time && has_reserved_open_event w.id db)) [
        | inl lingers ↦
            absurd
              (deny-denied env w p open_ambiguous denied_ambiguous db r (rw (lapsed, lingers) at h))
        | inr clear ↦ (
          inr (refl, lapsed, clear),
          grant-granted env (reactivate_row w.updated_at w) p now _ r (rw (lapsed, clear) at h),
        )
      ]
    ]

reserve_status-granted :
    (env : Env) (st : WhisperStatus) (w : WhisperRow) (p : ReserveOpenParams) (now : Time) (db : Db)
    (r : OpenReservation)
    → (reserve_status env st w p now db).0 ≡ ok (granted r)
    → CanReserve st w now db × (w.publish_state ≡ published)
unfolding reserve_status CanReserve
reserve_status-granted env active w p now db r h = (inl refl, grant-granted env w p now db r h)
reserve_status-granted env opening w p now db r h = reserve_opening-granted env w p now db r h
reserve_status-granted env opened w p now db r h =
    absurd (deny-denied env w p already_opened denied_already_opened db r h)
reserve_status-granted env revoked w p now db r h =
    absurd (deny-denied env w p not_active denied_revoked db r h)
reserve_status-granted env expired w p now db r h =
    absurd (deny-denied env w p not_active denied_not_active db r h)
reserve_status-granted env (WhisperStatus.other t) w p now db r h =
    absurd (deny-denied env w p not_active denied_not_active db r h)

-- The denial of an expired whisper, after its row is marked.
late-denied :
    (env : Env) (w : WhisperRow) (p : ReserveOpenParams) (now : Time) (db : Db)
    (r : OpenReservation)
    → (((if w.status == active || w.status == opening
            then expire_locked_whisper w.id now
            else pure tt)
          >>= λ _. deny env w p Error.expired denied_expired)
        db).0
      ≡ ok (granted r)
    → ⊥
late-denied env w p now db r h =
    let (_, _, last) =
      bind-ok
        (if w.status == active || w.status == opening
          then expire_locked_whisper w.id now
          else pure tt)
        (λ _. deny env w p Error.expired denied_expired) db (granted r) h in
    deny-denied env w p Error.expired denied_expired _ r last

reserve_found-granted :
    (env : Env) (w : WhisperRow) (p : ReserveOpenParams) (now : Time) (db : Db)
    (r : OpenReservation)
    → (reserve_found env w p now db).0 ≡ ok (granted r)
    → (w.recipient_id ≡ p.telegram_user_id)
      × (now < w.expires_at)
      × CanReserve w.status w now db
      × (w.publish_state ≡ published)
unfolding reserve_found
reserve_found-granted env w p now db r h =
    elim (Bool-cases (w.recipient_id == p.telegram_user_id)) [
      | inr other ↦ absurd (deny-denied env w p unauthorized denied_wrong_user db r (rw other at h))
      | inl mine ↦ elim (Bool-cases (after w.expires_at now)) [
        | inr late ↦ absurd (late-denied env w p now db r (rw (mine, late) at h))
        | inl alive ↦
            let (can, shown) =
              reserve_status-granted env w.status w p now db r (rw (mine, alive) at h) in
            ((int_eq.beq_iff w.recipient_id p.telegram_user_id).0 mine, ground arith, can, shown)
      ]
    ]

-- ReserveOpen returns a reservation only to the recipient of the whisper that the token names, on a
-- published whisper before its expiry, whose status is active, or opening with a lapsed lease and,
-- if it is one-time, no reserved event left.
pub reserve_open-granted :
    (env : Env) (p : ReserveOpenParams) (db : Db) (r : OpenReservation)
    → (reserve_open env p db).0 ≡ ok r
    → (w : WhisperRow) × (by_token p db ≡ some w)
      × (w.recipient_id ≡ p.telegram_user_id)
      × (now_or env.clock p.now < w.expires_at)
      × (w.publish_state ≡ published)
      × CanReserve w.status w (now_or env.clock p.now) db
unfolding reserve_open reserve_body
reserve_open-granted env p db r h =
    let now = now_or env.clock p.now in
    elim (Bool-cases (is_bad_reservation p now)) [
      | inl bad ↦ cc (rw bad at h)
      | inr good ↦
          let (v, body, result) =
            bind-ok (transaction (reserve_body env p now)) verdict_result db r (rw good at h) in
          let grants = verdict_result-granted v _ r result in
          let (w, found, inner) =
            bind-ok (take (by_token p)) (λ w. reserve_found env w p now) db (granted r)
              (roll_back-ok (reserve_body env p now db) db (granted r) (body ∙ ap ok grants)) in
          let (mine, alive, can, shown) = reserve_found-granted env w p now db r (
            ap (λ d. (reserve_found env w p now d).0) (sym (take_state (by_token p) db)) ∙ inner) in
          (w, take_found (by_token p) db w found, mine, alive, shown, can)
    ]
