-- ===== src/Repository/Opening/Once.antt =====
-- Sequences of the calls of internal/repository/opening.go on a one-time whisper.
use secretmediabot.Base.{
  ℕ, ◌+◌, ◌≤◌, ◌≡◌, refl, ap, Bool, true, ◌||◌, some, List, [], ◌∷◌, Uuid, arith, count, nat_eq,
}
use secretmediabot.Base.Table.{Distinct}
use secretmediabot.Domain.Status.{WhisperStatus, active, opening, opened}
use secretmediabot.Domain.Events.{OpenDeliveryState, is_reserved, is_delivered}
use secretmediabot.Repository.Rows.{WhisperRow, OpenEventRow, Db}
use secretmediabot.Repository.Mapping.{Env, whisper_key}
use secretmediabot.Repository.Opening.Params.{ReserveOpenParams, CompleteOpenParams, FailOpenParams}
use secretmediabot.Repository.Opening.Audit.{has_reserved_open_event}
use secretmediabot.Repository.Opening.Reserve.{reserve_open}
use secretmediabot.Repository.Opening.Finish.{find_whisper, complete_open, fail_open}
use secretmediabot.Repository.Opening.Tally.{tally, HasKeys, IsCapped}
use secretmediabot.Repository.Opening.Capped.{Suits}
use secretmediabot.Repository.Opening.Capped.Reserve.{Reopens, reserve_open-Good}
use secretmediabot.Repository.Opening.Capped.Settle.{complete_open-Good}
use secretmediabot.Repository.Opening.Capped.Fail.{fail_open-Good}

-- One call of the store, with the clock that it reads.
pub data Call : Type 0 where
  reserve : Env → ReserveOpenParams → Call
  complete : Env → CompleteOpenParams → Call
  fail : Env → FailOpenParams → Call

-- The database after a call, whatever the call returns.
unfoldable pub run_call : Call → Db → Db
unfolding reserve_open complete_open fail_open
run_call (reserve env p) db = (reserve_open env p db).1
run_call (complete env p) db = (complete_open env p db).1
run_call (fail env p) db = (fail_open env p db).1

unfoldable pub run_calls : List Call → Db → Db
unfolding run_call
run_calls [] db = db
run_calls (c ∷ cs) db = run_calls cs (run_call c db)

-- A delivery that is under way or done.
abbrev pub is_taken : OpenDeliveryState → Bool
is_taken d = is_reserved d || is_delivered d

abbrev pub taken_cap : WhisperStatus → ℕ
taken_cap active = 0
taken_cap _ = 1

abbrev pub delivered_cap : WhisperStatus → ℕ
delivered_cap opened = 1
delivered_cap _ = 0

pub taken_suits : Suits is_taken taken_cap
taken_suits = record {
  denial = refl;
  failure = refl;
  lapse = omega arith;
  lapse_opening = omega arith;
  reserve = omega arith;
  complete = omega arith;
  settle = omega arith;
  release = omega arith;
}

pub delivered_suits : Suits is_delivered delivered_cap
delivered_suits = record {
  denial = refl;
  failure = refl;
  lapse = omega arith;
  lapse_opening = omega arith;
  reserve = omega arith;
  complete = omega arith;
  settle = omega arith;
  release = omega arith;
}

-- Of a one-time whisper at most one delivery is taken, none while it is active, and one is
-- delivered only if it is opened.
unfoldable pub IsExclusive : Db → Type 0
IsExclusive db =
    HasKeys db × IsCapped is_taken taken_cap db × IsCapped is_delivered delivered_cap db

tally-taken :
    (id : Uuid) (es : List OpenEventRow)
    → tally is_taken id es ≤ tally is_reserved id es + tally is_delivered id es
unfolding tally count
tally-taken id [] = omega arith
tally-taken id (e ∷ es) = ground (arith, tally-taken id es)

delivered-Reopens : (db : Db) → IsCapped is_delivered delivered_cap db → Reopens delivered_suits db
unfolding Reopens
delivered-Reopens db h w found one st clear =
    omega (arith, h.bound w.id w found one, ap delivered_cap st)

taken-Reopens : (db : Db) → IsExclusive db → Reopens taken_suits db
unfolding Reopens IsExclusive has_reserved_open_event tally
taken-Reopens db h w found one st clear = ground (
  arith,
  tally-taken w.id db.events,
  h.1.bound w.id w found one,
  h.2.bound w.id w found one,
  ap delivered_cap st,
)

pub run_call-delivered :
    (c : Call) (db : Db)
    → HasKeys db × IsCapped is_delivered delivered_cap db
    → HasKeys (run_call c db) × IsCapped is_delivered delivered_cap (run_call c db)
unfolding run_call
run_call-delivered (reserve env p) db h =
    reserve_open-Good delivered_suits env p db h (delivered-Reopens db h.1)
run_call-delivered (complete env p) db h = complete_open-Good delivered_suits env p db h
run_call-delivered (fail env p) db h = fail_open-Good delivered_suits env p db h

run_call-taken :
    (c : Call) (db : Db)
    → IsExclusive db
    → HasKeys (run_call c db) × IsCapped is_taken taken_cap (run_call c db)
unfolding run_call IsExclusive
run_call-taken (reserve env p) db h =
    reserve_open-Good taken_suits env p db (h.0, h.1) (taken-Reopens db h)
run_call-taken (complete env p) db h = complete_open-Good taken_suits env p db (h.0, h.1)
run_call-taken (fail env p) db h = fail_open-Good taken_suits env p db (h.0, h.1)

run_call-IsExclusive : (c : Call) (db : Db) → IsExclusive db → IsExclusive (run_call c db)
unfolding IsExclusive
run_call-IsExclusive c db h =
    let taken = run_call-taken c db h in (taken.0, taken.1, (run_call-delivered c db (h.0, h.2)).1)

-- Any sequence of ReserveOpen, CompleteOpen and FailOpen calls, each with its own clock, keeps
-- this: keys are distinct, a one-time whisper has no reserved or delivered event while it is
-- active and one at most in any other status, and a delivered one only if it is opened.
pub run_calls-IsExclusive :
    (cs : List Call) (db : Db) → IsExclusive db → IsExclusive (run_calls cs db)
unfolding run_calls
run_calls-IsExclusive [] db h = h
run_calls-IsExclusive (c ∷ cs) db h =
    run_calls-IsExclusive cs (run_call c db) (run_call-IsExclusive c db h)

taken_cap-bound : (st : WhisperStatus) → taken_cap st ≤ 1
taken_cap-bound st = ground arith

delivered_cap-unopened : (st : WhisperStatus) → (st ≡ opened → ⊥) → delivered_cap st ≡ 0
delivered_cap-unopened opened h = absurd (h refl)
delivered_cap-unopened active h = refl
delivered_cap-unopened opening h = refl
delivered_cap-unopened WhisperStatus.expired h = refl
delivered_cap-unopened WhisperStatus.revoked h = refl
delivered_cap-unopened (WhisperStatus.other t) h = refl

pub no_events-IsExclusive :
    (db : Db) → Distinct whisper_key db.whispers → db.events ≡ [] → IsExclusive db
unfolding IsExclusive tally count
no_events-IsExclusive db keys empty = (
  record { whispers_distinct = keys; events_distinct = rw empty tt; events_below = rw empty tt },
  record { bound = λ j w found one. rw empty (omega arith) },
  record { bound = λ j w found one. rw empty (omega arith) },
)

-- From a database with distinct whisper keys and no open event, after any sequence of ReserveOpen,
-- CompleteOpen and FailOpen calls, each with its own clock: a one-time whisper has at most one
-- event that is reserved or delivered, none if it is active, and none that is delivered unless
-- it is opened.
pub one_time_delivery :
    (cs : List Call) (db : Db) (id : Uuid) (w : WhisperRow)
    → Distinct whisper_key db.whispers
    → db.events ≡ []
    → find_whisper id (run_calls cs db) ≡ some w
    → w.one_time ≡ true
    → (tally is_taken id (run_calls cs db).events ≤ 1)
      × (w.status ≡ active → tally is_taken id (run_calls cs db).events ≡ 0)
      × ((w.status ≡ opened → ⊥) → tally is_delivered id (run_calls cs db).events ≡ 0)
unfolding IsExclusive
one_time_delivery cs db id w keys empty found one =
    let safe = run_calls-IsExclusive cs db (no_events-IsExclusive db keys empty) in
    let taken = safe.1.bound id w found one in
    let done = safe.2.bound id w found one in
    (
      omega (arith, taken, taken_cap-bound w.status),
      λ st. omega (arith, taken, ap taken_cap st),
      λ st. omega (arith, done, delivered_cap-unopened w.status st),
    )
