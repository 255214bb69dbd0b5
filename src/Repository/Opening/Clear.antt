-- ===== src/Repository/Opening/Clear.antt =====
-- The branches of `ReserveOpen` of internal/repository/opening.go that never call a delivery ambiguous.
use secretmediabot.Base.{
  ◌≡◌, ◌⊎◌, Uuid, Time, Bytes, ◌==◌, nat_eq, int_eq, string_eq, list_eq, arith, Bool-cases, inl,
  inr,
}
use secretmediabot.Domain.Status.{status_eq, published, publish_eq}
use secretmediabot.Domain.Events.{OpenEventOutcome, denied_not_active}
use secretmediabot.Repository.Errors.{Error, Result, ok, err, open_ambiguous, not_active}
use secretmediabot.Repository.Rows.{WhisperRow, OpenEventRow, Db}
use secretmediabot.Repository.Tx.{Tx, pure, continue, ◌>>=◌}
use secretmediabot.Repository.Mapping.{Env, load_whisper_projection, to_domain, WhisperProjection}
use secretmediabot.Repository.Statements.{insert_event, insert_event-cases, lift}
use secretmediabot.Repository.Opening.Params.{ReserveOpenParams}
use secretmediabot.Repository.Opening.Content.{
  load_delivery_content, delivery_content, text_delivery, media_delivery, delivery_media,
}
use secretmediabot.Repository.Opening.Audit.{record_denied_open}
use secretmediabot.Repository.Opening.Reserve.{
  Verdict, denied, deny, grant, take_opening_lease, reserve_event, reserved_event,
}

-- Neither an action nor its verdict says that a delivery is ambiguous.
abbrev pub Never : {A : Type 0} → Tx A → Type 0
Never m = (db : Db) → (m db).0 ≡ err open_ambiguous → ⊥

abbrev pub IsAmbiguous : Result Verdict → Type 0
IsAmbiguous r = (r ≡ err open_ambiguous) ⊎ (r ≡ ok (denied open_ambiguous))

abbrev pub IsClear : Tx Verdict → Type 0
IsClear m = (db : Db) → IsAmbiguous (m db).0 → ⊥

continue-IsClear :
    {A : Type 0} (r : Result A) (f : A → Tx Verdict) (db : Db)
    → (r ≡ err open_ambiguous → ⊥)
    → ((a : A) → IsClear (f a))
    → IsAmbiguous (continue r f db).0
    → ⊥
continue-IsClear (ok a) f db first next h = next a db h
continue-IsClear (err e) f db first next (inl h) = first (cc h)
continue-IsClear (err e) f db first next (inr h) = cc

pub bind-IsClear :
    {A : Type 0} (m : Tx A) (f : A → Tx Verdict)
    → Never m
    → ((a : A) → IsClear (f a))
    → IsClear (m >>= f)
bind-IsClear m f first next db = continue-IsClear (m db).0 f (m db).1 (first db) next

insert_event-Never : (e : OpenEventRow) → Never (insert_event e)
insert_event-Never e db h = elim (insert_event-cases e db) [
  | inl refused ↦ cc (rw refused at h)
  | inr done ↦ cc (rw done at h)
]

record_denied_open-Never :
    (env : Env) (id : Uuid) (p : ReserveOpenParams) (o : OpenEventOutcome)
    → Never (record_denied_open env id p o)
unfolding record_denied_open insert_event
record_denied_open-Never env id p o db h = ground (arith, h)

pub deny-IsClear :
    (env : Env) (w : WhisperRow) (p : ReserveOpenParams) (e : Error) (o : OpenEventOutcome)
    → (e ≡ open_ambiguous → ⊥)
    → IsClear (deny env w p e o)
unfolding deny
deny-IsClear env w p e o other =
    bind-IsClear (record_denied_open env w.id p o) (λ _. pure (denied e))
      (record_denied_open-Never env w.id p o)
      (λ _ db h. elim h [ inl failed ↦ cc | inr said ↦ other (cc said) ])

load_whisper_projection-Never : (id : Uuid) → Never (load_whisper_projection id)
unfolding load_whisper_projection
load_whisper_projection-Never id db h = ground (arith, h)

to_domain-Never :
    (env : Env) (hash : Bytes) (r : WhisperProjection) → Never (lift (to_domain env hash r))
unfolding to_domain
to_domain-Never env hash r db h = ground (arith, h)

load_delivery_content-Never : (w : WhisperRow) → Never (load_delivery_content w)
unfolding load_delivery_content delivery_content text_delivery media_delivery delivery_media
load_delivery_content-Never w db h = ground (arith, h)

take_opening_lease-Never :
    (w : WhisperRow) (p : ReserveOpenParams) (now : Time) → Never (take_opening_lease w p now)
unfolding take_opening_lease
take_opening_lease-Never w p now db h = ground (arith, h)

reserve_event-IsClear :
    (env : Env) (w : WhisperRow) (p : ReserveOpenParams) (now : Time)
    → IsClear (reserve_event env w p now)
unfolding reserve_event
reserve_event-IsClear env w p now =
    bind-IsClear (insert_event (reserved_event w.id p now)) _
      (insert_event-Never (reserved_event w.id p now))
      (λ event.
        bind-IsClear (load_whisper_projection w.id) _ (load_whisper_projection-Never w.id) (λ row.
          bind-IsClear (lift (to_domain env p.open_token_hash row)) _
            (to_domain-Never env p.open_token_hash row)
            (λ whisper.
              bind-IsClear (load_delivery_content w) _ (load_delivery_content-Never w)
                (λ content db h. elim h [ inl failed ↦ cc | inr said ↦ cc ]))))

pub grant-IsClear :
    (env : Env) (w : WhisperRow) (p : ReserveOpenParams) (now : Time) → IsClear (grant env w p now)
unfolding grant
grant-IsClear env w p now db h = elim (Bool-cases (w.publish_state == published)) [
  | inl shown ↦
      bind-IsClear (take_opening_lease w p now) (λ _. reserve_event env w p now)
        (take_opening_lease-Never w p now) (λ _. reserve_event-IsClear env w p now) db
        (rw shown at h)
  | inr hidden ↦ deny-IsClear env w p not_active denied_not_active (λ e. cc) db (rw hidden at h)
]
