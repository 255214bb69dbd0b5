-- ===== src/Repository/Opening/Ambiguous.antt =====
-- `ReserveOpen` of internal/repository/opening.go: when it answers that a delivery is ambiguous.
use secretmediabot.Base.{
  ◌+◌, ◌<◌, ◌≤◌, ◌≡◌, ◌⊎◌, refl, ◌∙◌, Bool, true, false, ◌&&◌, ◌||◌, Option, none, some, List, [],
  ◌∷◌, Time, ◌==◌, nat_eq, int_eq, string_eq, list_eq, arith, Bool-cases, inl, inr, after,
  if◌then◌else◌, ltb, count,
}
use secretmediabot.Base.Table.{find_where}
use secretmediabot.Domain.Status.{
  WhisperStatus, active, opening, opened, revoked, expired, status_eq, publish_eq,
}
use secretmediabot.Domain.Events.{
  denied_ambiguous, denied_revoked, denied_not_active, denied_already_opened, denied_wrong_user,
  denied_expired, is_reserved,
}
use secretmediabot.Repository.Errors.{
  Error, Result, ok, err, open_ambiguous, not_active, unauthorized, already_opened,
}
use secretmediabot.Repository.Rows.{WhisperRow, OpenEventRow, Db}
use secretmediabot.Repository.Tx.{Tx, pure, continue, roll_back, take, now_or, ◌>>=◌}
use secretmediabot.Repository.Mapping.{Env}
use secretmediabot.Repository.Statements.{update_whisper}
use secretmediabot.Repository.Opening.Params.{ReserveOpenParams}
use secretmediabot.Repository.Opening.Audit.{
  is_recent, minute, record_denied_open, has_reserved_open_event, reactivate_row, always,
  expire_locked_whisper,
}
use secretmediabot.Repository.Opening.Reserve.{
  Verdict, granted, denied, deny, grant, lease_runs, reserve_opening, reserve_status, reserve_found,
  by_token, reserve_body, verdict_result, is_bad_reservation, reserve_open,
}
use secretmediabot.Repository.Opening.Clear.{
  IsAmbiguous, IsClear, bind-IsClear, deny-IsClear, grant-IsClear,
}

count-found :
    (q : OpenEventRow → Bool) (es : List OpenEventRow)
    → ltb 0 (count q es) ≡ true
    → (e : OpenEventRow) × (find_where q es ≡ some e)
unfolding count find_where
count-found q [] h = cc
count-found q (e ∷ es) h = elim (Bool-cases (q e)) [
  | inl hit ↦ (e, rw hit refl)
  | inr miss ↦ rw miss (count-found q es (rw miss at h))
]

-- A one-time whisper that its recipient may have received.
pub record IsDoubtful (w : WhisperRow) (p : ReserveOpenParams) (now : Time) (db : Db) : Type 0 where
  pub asked : w.recipient_id ≡ p.telegram_user_id
  pub unexpired : now < w.expires_at
  pub one_time : w.one_time ≡ true
  pub in_opening : w.status ≡ opening
  pub lapsed : (t : Time) × (w.opening_lease_until ≡ some t) × (t ≤ now)
  pub lingers :
      (e : OpenEventRow) × (find_where
          (λ (x : OpenEventRow). x.whisper_id == w.id && is_reserved x.delivery_state)
          db.events
        ≡ some e)
  pub recent :
      (e : OpenEventRow) × (find_where
          (λ (x : OpenEventRow).
            x.whisper_id == w.id
            && x.telegram_user_id == p.telegram_user_id
            && ltb now (x.created_at + minute))
          db.events
        ≡ some e)

ended :
    (o : Option Time) (now : Time)
    → lease_runs o now ≡ false
    → (t : Time) × (o ≡ some t) × (t ≤ now)
ended none now h = cc
ended (some t) now h = (t, refl, ground (arith, h))

deny-ambiguous :
    (env : Env) (w : WhisperRow) (p : ReserveOpenParams) (db : Db)
    → IsAmbiguous (deny env w p open_ambiguous denied_ambiguous db).0
    → (ltb 0 (count (is_recent w.id p.telegram_user_id (now_or env.clock p.now)) db.events) ≡ true)
      × ((deny env w p open_ambiguous denied_ambiguous db).1 ≡ db)
unfolding deny record_denied_open
deny-ambiguous env w p db h =
    elim (Bool-cases
      (ltb 0 (count (is_recent w.id p.telegram_user_id (now_or env.clock p.now)) db.events))) [
        | inl recent ↦ (recent, rw recent refl)
        | inr fresh ↦ elim h [
          | inl failed ↦ cc (rw fresh at failed)
          | inr said ↦ cc (rw fresh at said)
        ]
      ]

-- What holds of the row and the tables if the action says that a delivery is ambiguous.
abbrev Explains : WhisperRow → ReserveOpenParams → Time → Db → Tx Verdict → Type 0
Explains w p now db m = IsAmbiguous (m db).0 → IsDoubtful w p now db × ((m db).1 ≡ db)

clear-Explains :
    (w : WhisperRow) (p : ReserveOpenParams) (now : Time) (db : Db) (m : Tx Verdict)
    → IsClear m
    → Explains w p now db m
clear-Explains w p now db m clear h = absurd (clear db h)

reserve_opening-Explains :
    (env : Env) (w : WhisperRow) (p : ReserveOpenParams) (db : Db)
    → w.recipient_id ≡ p.telegram_user_id
    → now_or env.clock p.now < w.expires_at
    → w.status ≡ opening
    → Explains w p (now_or env.clock p.now) db (reserve_opening env w p (now_or env.clock p.now))
unfolding reserve_opening has_reserved_open_event is_recent
reserve_opening-Explains env w p db mine alive status h =
    let now = now_or env.clock p.now in
    elim (Bool-cases (lease_runs w.opening_lease_until now)) [
      | inl runs ↦
          absurd (deny-IsClear env w p not_active denied_not_active (λ e. cc) db (rw runs at h))
      | inr lapsed ↦ elim (Bool-cases (w.one_time && has_reserved_open_event w.id db)) [
        | inr certain ↦ absurd (
            bind-IsClear (update_whisper w.id always (reactivate_row now))
              (λ _. grant env (reactivate_row w.updated_at w) p now) (λ d e. cc)
              (λ _. grant-IsClear env (reactivate_row w.updated_at w) p now) db
              (rw (lapsed, certain) at h))
        | inl doubtful ↦
            let (recent, same) = deny-ambiguous env w p db (rw (lapsed, doubtful) at h) in
            (
              record {
                asked = mine;
                unexpired = alive;
                one_time = ground (arith, doubtful);
                in_opening = status;
                lapsed = ended w.opening_lease_until now lapsed;
                lingers = count-found _ db.events (ground (arith, doubtful));
                recent = count-found _ db.events recent;
              },
              rw (lapsed, doubtful) same,
            )
      ]
    ]

reserve_status-Explains :
    (env : Env) (st : WhisperStatus) (w : WhisperRow) (p : ReserveOpenParams) (db : Db)
    → w.recipient_id ≡ p.telegram_user_id
    → now_or env.clock p.now < w.expires_at
    → w.status ≡ st
    → Explains w p (now_or env.clock p.now) db (reserve_status env st w p (now_or env.clock p.now))
unfolding reserve_status
reserve_status-Explains env active w p db mine alive status =
    clear-Explains w p (now_or env.clock p.now) db (grant env w p (now_or env.clock p.now))
      (grant-IsClear env w p (now_or env.clock p.now))
reserve_status-Explains env opening w p db mine alive status =
    reserve_opening-Explains env w p db mine alive status
reserve_status-Explains env opened w p db mine alive status =
    clear-Explains w p (now_or env.clock p.now) db
      (deny env w p already_opened denied_already_opened)
      (deny-IsClear env w p already_opened denied_already_opened (λ e. cc))
reserve_status-Explains env revoked w p db mine alive status =
    clear-Explains w p (now_or env.clock p.now) db (deny env w p not_active denied_revoked)
      (deny-IsClear env w p not_active denied_revoked (λ e. cc))
reserve_status-Explains env expired w p db mine alive status =
    clear-Explains w p (now_or env.clock p.now) db (deny env w p not_active denied_not_active)
      (deny-IsClear env w p not_active denied_not_active (λ e. cc))
reserve_status-Explains env (WhisperStatus.other t) w p db mine alive status =
    clear-Explains w p (now_or env.clock p.now) db (deny env w p not_active denied_not_active)
      (deny-IsClear env w p not_active denied_not_active (λ e. cc))

late-IsClear :
    (env : Env) (w : WhisperRow) (p : ReserveOpenParams) (now : Time)
    → IsClear (
        (if w.status == active || w.status == opening
          then expire_locked_whisper w.id now
          else pure tt)
        >>= λ _. deny env w p Error.expired denied_expired)
unfolding expire_locked_whisper
late-IsClear env w p now =
    bind-IsClear
      (if w.status == active || w.status == opening
        then expire_locked_whisper w.id now
        else pure tt)
      (λ _. deny env w p Error.expired denied_expired) (λ db h. ground (arith, h))
      (λ _. deny-IsClear env w p Error.expired denied_expired (λ e. cc))

reserve_found-Explains :
    (env : Env) (w : WhisperRow) (p : ReserveOpenParams) (db : Db)
    → Explains w p (now_or env.clock p.now) db (reserve_found env w p (now_or env.clock p.now))
unfolding reserve_found
reserve_found-Explains env w p db h =
    let now = now_or env.clock p.now in
    elim (Bool-cases (w.recipient_id == p.telegram_user_id)) [
      | inr stranger ↦
          absurd
            (deny-IsClear env w p unauthorized denied_wrong_user (λ e. cc) db (rw stranger at h))
      | inl mine ↦ elim (Bool-cases (after w.expires_at now)) [
        | inr late ↦ absurd (late-IsClear env w p now db (rw (mine, late) at h))
        | inl alive ↦
            let (doubt, same) =
              reserve_status-Explains env w.status w p db
                ((int_eq.beq_iff w.recipient_id p.telegram_user_id).0 mine) (ground (arith, alive))
                refl (rw (mine, alive) at h) in
            (doubt, rw (mine, alive) same)
      ]
    ]

-- The row that the token names explains the answer.
abbrev pub IsExplained : ReserveOpenParams → Time → Db → Type 0
IsExplained p now db = (w : WhisperRow) × (by_token p db ≡ some w) × IsDoubtful w p now db

named-Explains :
    (env : Env) (p : ReserveOpenParams) (db : Db) (o : Option WhisperRow)
    → by_token p db ≡ o
    → IsAmbiguous ((take (λ _. o) >>= λ w. reserve_found env w p (now_or env.clock p.now)) db).0
    → IsExplained p (now_or env.clock p.now) db
      × (((take (λ _. o) >>= λ w. reserve_found env w p (now_or env.clock p.now)) db).1 ≡ db)
named-Explains env p db none named (inl h) = cc
named-Explains env p db none named (inr h) = cc
named-Explains env p db (some w) named h =
    let (doubt, same) = reserve_found-Explains env w p db h in ((w, named, doubt), same)

body-Explains :
    (env : Env) (p : ReserveOpenParams) (db : Db)
    → IsAmbiguous (reserve_body env p (now_or env.clock p.now) db).0
    → IsExplained p (now_or env.clock p.now) db
      × ((reserve_body env p (now_or env.clock p.now) db).1 ≡ db)
unfolding reserve_body
body-Explains env p db = named-Explains env p db (by_token p db) refl

-- A verdict that is rolled back or committed, and answered.
answered :
    (r : Result Verdict × Db) (db : Db)
    → (continue (roll_back db r).0 verdict_result (roll_back db r).1).0 ≡ err open_ambiguous
    → IsAmbiguous r.0
      × (((continue (roll_back db r).0 verdict_result (roll_back db r).1).1 ≡ db)
          ⊎ ((continue (roll_back db r).0 verdict_result (roll_back db r).1).1 ≡ r.1))
unfolding verdict_result
answered (ok (granted v), d) db h = cc
answered (ok (denied e), d) db h = (inr (ground (arith, h)), inr refl)
answered (err e, d) db h = (inl (ground (arith, h)), inl refl)

-- If ReserveOpen answers that the delivery is ambiguous, then the token names a one-time whisper that
-- has not expired, whose recipient asks; it is in an opening whose lease has ended; one of its events
-- is reserved; one of its events is the recipient's and less than a minute old; and the database is as
-- it was, so that no denial is recorded.
pub reserve_open-ambiguous :
    (env : Env) (p : ReserveOpenParams) (db : Db)
    → (reserve_open env p db).0 ≡ err open_ambiguous
    → IsExplained p (now_or env.clock p.now) db × ((reserve_open env p db).1 ≡ db)
unfolding reserve_open
reserve_open-ambiguous env p db h =
    let now = now_or env.clock p.now in
    elim (Bool-cases (is_bad_reservation p now)) [
      | inl bad ↦ cc (rw bad at h)
      | inr good ↦
          let (said, state) = answered (reserve_body env p now db) db (rw good at h) in
          let (why, same) = body-Explains env p db said in
          (
            why,
            elim state [
              | inl restored ↦ rw good restored
              | inr committed ↦ rw good (committed ∙ same)
            ],
          )
    ]
