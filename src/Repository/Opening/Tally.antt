-- ===== src/Repository/Opening/Tally.antt =====
-- Counting the open events of a whisper, and a bound on them by the whisper's status.
use secretmediabot.Base.{
  ℕ, suc, ◌+◌, ◌≤◌, ◌<◌, ◌≡◌, refl, Bool, true, ◌&&◌, none, some, List, [], ◌∷◌, ◌++◌, Uuid, ◌==◌,
  nat_eq, arith, count, count-append, All, All-append, Bool-cases, inl, inr,
}
use secretmediabot.Base.Table.{find, modify, Distinct}
use secretmediabot.Base.Table.Laws.{bit, find-modify_cases, count-modify, Distinct-modify}
use secretmediabot.Domain.Status.{WhisperStatus}
use secretmediabot.Domain.Events.{OpenDeliveryState}
use secretmediabot.Repository.Rows.{WhisperRow, OpenEventRow, Db}
use secretmediabot.Repository.Mapping.{whisper_key}
use secretmediabot.Repository.Statements.{event_key, update_whisper, update_event, with_event}
use secretmediabot.Repository.Opening.Finish.{find_whisper}

-- The events of a whisper whose delivery is in a state that `q` selects.
abbrev pub of_whisper : (OpenDeliveryState → Bool) → Uuid → OpenEventRow → Bool
of_whisper q id e = e.whisper_id == id && q e.delivery_state

unfoldable pub tally : (OpenDeliveryState → Bool) → Uuid → List OpenEventRow → ℕ
tally q id es = count (of_whisper q id) es

-- The serial keys of the events are distinct and below the next one.
pub record HasKeys (db : Db) : Type 0 where
  pub whispers_distinct : Distinct whisper_key db.whispers
  pub events_distinct : Distinct event_key db.events
  pub events_below : All (λ (e : OpenEventRow). e.id < db.next_event_id) db.events

find-below :
    (n : ℕ) (es : List OpenEventRow)
    → All (λ (e : OpenEventRow). e.id < n) es
    → find event_key n es ≡ none
unfolding find
find-below n [] h = refl
find-below n (e ∷ es) h = ground (arith, find-below n es h.1)

find-append_none :
    (k : ℕ) (es : List OpenEventRow) (e : OpenEventRow)
    → find event_key k es ≡ none
    → (e.id ≡ k → ⊥)
    → find event_key k (es ++ e ∷ []) ≡ none
unfolding find
find-append_none k [] e h n = ground arith
find-append_none k (x ∷ es) e h n = ground (arith, find-append_none k es e)

Distinct-append :
    (n : ℕ) (es : List OpenEventRow) (e : OpenEventRow)
    → e.id ≡ n
    → All (λ (x : OpenEventRow). x.id < n) es
    → Distinct event_key es
    → Distinct event_key (es ++ e ∷ [])
unfolding find
Distinct-append n [] e h b d = (refl, tt)
Distinct-append n (x ∷ es) e h b d = (
  find-append_none x.id es e d.0 (λ q. omega (arith, q, h, b.0)),
  Distinct-append n es e h b.1 d.1,
)

All-below_mono :
    (n : ℕ) (es : List OpenEventRow)
    → All (λ (x : OpenEventRow). x.id < n) es
    → All (λ (x : OpenEventRow). x.id < suc n) es
All-below_mono n [] h = tt
All-below_mono n (x ∷ es) h = (omega arith, All-below_mono n es h.1)

pub with_event-HasKeys : (e : OpenEventRow) (db : Db) → HasKeys db → HasKeys (with_event e db)
with_event-HasKeys e db h = record {
  whispers_distinct = h.whispers_distinct;
  events_distinct =
      Distinct-append db.next_event_id db.events (record e { id = db.next_event_id }) refl
        h.events_below h.events_distinct;
  events_below =
      All-append (λ (x : OpenEventRow). x.id < suc db.next_event_id) db.events
        (record e { id = db.next_event_id } ∷ [])
        (All-below_mono db.next_event_id db.events h.events_below) (omega arith, tt);
}

All-below-modify :
    (k : ℕ) (p : OpenEventRow → Bool) (f : OpenEventRow → OpenEventRow) (n : ℕ)
    (es : List OpenEventRow)
    → ((x : OpenEventRow) → event_key (f x) ≡ event_key x)
    → All (λ (x : OpenEventRow). x.id < n) es
    → All (λ (x : OpenEventRow). x.id < n) (modify event_key k p f es)
unfolding modify
All-below-modify k p f n [] h a = tt
All-below-modify k p f n (x ∷ es) h a = ground (arith, h x, All-below-modify k p f n es h a.1)

-- A statement that leaves the primary keys alone keeps them distinct.
pub update_whisper-HasKeys :
    (k : Uuid) (p : WhisperRow → Bool) (f : WhisperRow → WhisperRow) (db : Db)
    → ((x : WhisperRow) → whisper_key (f x) ≡ whisper_key x)
    → HasKeys db
    → HasKeys (update_whisper k p f db).1
update_whisper-HasKeys k p f db e h = record {
  whispers_distinct = Distinct-modify whisper_key k p f db.whispers e h.whispers_distinct;
  events_distinct = h.events_distinct;
  events_below = h.events_below;
}

pub update_event-HasKeys :
    (k : ℕ) (p : OpenEventRow → Bool) (f : OpenEventRow → OpenEventRow) (db : Db)
    → ((x : OpenEventRow) → event_key (f x) ≡ event_key x)
    → HasKeys db
    → HasKeys (update_event k p f db).1
update_event-HasKeys k p f db e h = record {
  whispers_distinct = h.whispers_distinct;
  events_distinct = Distinct-modify event_key k p f db.events e h.events_distinct;
  events_below = All-below-modify k p f db.next_event_id db.events e h.events_below;
}

-- The bound of a one-time whisper: at most `cap s` events of it are in a state that `q` selects,
-- while its status is `s`.
module _ (q : OpenDeliveryState → Bool) (cap : WhisperStatus → ℕ) where
  pub record IsCapped (db : Db) : Type 0 where
    pub bound :
        (j : Uuid) (w : WhisperRow)
        → find_whisper j db ≡ some w
        → w.one_time ≡ true
        → tally q j db.events ≤ cap w.status

  pub update_whisper-IsCapped :
      (k : Uuid) (p : WhisperRow → Bool) (f : WhisperRow → WhisperRow) (db : Db)
      → ((x : WhisperRow) → whisper_key (f x) ≡ whisper_key x)
      → ((x : WhisperRow)
          → find_whisper k db ≡ some x
          → p x ≡ true
          → (f x).one_time ≡ true
          → tally q k db.events ≤ cap (f x).status)
      → IsCapped db
      → IsCapped (update_whisper k p f db).1
  unfolding tally
  update_whisper-IsCapped k p f db keys new h = record {
    bound = λ j w found one. elim (find-modify_cases whisper_key k j p f db.whispers w keys found) [
      | inl old ↦ h.bound j w old one
      | inr (x, here, old, pass, made) ↦
          rw (made, ← here) (new x (rw here old) pass (rw (← made) one))
    ];
  }

  tally-with_event :
      (e : OpenEventRow) (j : Uuid) (db : Db)
      → tally q j (with_event e db).events
        ≡ tally q j db.events + bit (e.whisper_id == j && q e.delivery_state)
  unfolding tally count
  tally-with_event e j db =
      ground
        (arith, count-append (of_whisper q j) db.events (record e { id = db.next_event_id } ∷ []))

  -- A new event counts against its own whisper.
  pub with_event-IsCapped :
      (e : OpenEventRow) (db : Db)
      → ((w : WhisperRow)
          → find_whisper e.whisper_id db ≡ some w
          → w.one_time ≡ true
          → tally q e.whisper_id db.events + bit (q e.delivery_state) ≤ cap w.status)
      → IsCapped db
      → IsCapped (with_event e db)
  with_event-IsCapped e db new h = record {
    bound = λ j w found one. elim (Bool-cases (e.whisper_id == j)) [
      | inl here ↦
          let same = (nat_eq.beq_iff e.whisper_id j).0 here in
          ground (arith, tally-with_event e j db, new w (rw same found) one)
      | inr other ↦ ground (arith, tally-with_event e j db, h.bound j w found one)
    ];
  }

  -- An update of one event moves its count by what the update changes.
  pub tally-update_event :
      (k : ℕ) (p : OpenEventRow → Bool) (f : OpenEventRow → OpenEventRow) (db : Db)
      (e : OpenEventRow) (j : Uuid)
      → find event_key k db.events ≡ some e
      → p e ≡ true
      → tally q j (update_event k p f db).1.events + bit (of_whisper q j e)
        ≡ tally q j db.events + bit (of_whisper q j (f e))
  unfolding tally
  tally-update_event k p f db e j found pass =
      count-modify event_key k p (of_whisper q j) f db.events e found pass

  -- An update of one event, whose change the status of its whisper allows.
  pub update_event-IsCapped :
      (k : ℕ) (p : OpenEventRow → Bool) (f : OpenEventRow → OpenEventRow) (db : Db)
      (e : OpenEventRow)
      → find event_key k db.events ≡ some e
      → p e ≡ true
      → (f e).whisper_id ≡ e.whisper_id
      → ((w : WhisperRow)
          → find_whisper e.whisper_id db ≡ some w
          → w.one_time ≡ true
          → tally q e.whisper_id db.events + bit (q (f e).delivery_state)
            ≤ cap w.status + bit (q e.delivery_state))
      → IsCapped db
      → IsCapped (update_event k p f db).1
  update_event-IsCapped k p f db e found pass stays new h = record {
    bound = λ j w here one. elim (Bool-cases (e.whisper_id == j)) [
      | inl same ↦
          let eq = (nat_eq.beq_iff e.whisper_id j).0 same in
          ground (arith, tally-update_event k p f db e j found pass, new w (rw eq here) one)
      | inr other ↦ ground (arith, tally-update_event k p f db e j found pass, h.bound j w here one)
    ];
  }
