-- ===== src/Repository/Publish/Steps.antt =====
-- How the calls of internal/repository/publish.go move a whisper along its publication.
use secretmediabot.Base.{
  ◌≡◌, refl, sym, ap, ◌⊎◌, ◌∙◌, Bool, true, ◌&&◌, ◌||◌, not, some, List, [], ◌∷◌, Uuid, Time, ◌==◌,
  nat_eq, after, arith, Bool-cases, inl, inr, beq_refl, nil_uuid,
}
use secretmediabot.Base.Table.{Distinct}
use secretmediabot.Base.Select.{has_key, select_sorted-passes}
use secretmediabot.Base.Table.Laws.{find-modify, Distinct-modify}
use secretmediabot.Domain.Status.{
  WhisperStatus, status_eq, PublishState, pending, publishing, published, retry_wait, failed,
  publish_eq,
}
use secretmediabot.Repository.Errors.{not_active, invalid_input}
use secretmediabot.Repository.Rows.{WhisperRow, Db}
use secretmediabot.Repository.Tx.{
  transaction, transaction_keeps, bind_keeps, if_keeps, require_keeps, require, raise, now_or, ◌>>◌,
}
use secretmediabot.Repository.Mapping.{Env, whisper_key, load_whisper_projection}
use secretmediabot.Repository.Statements.{update_whisper}
use secretmediabot.Repository.Opening.Finish.{find_whisper}
use secretmediabot.Repository.Publish.{
  ClaimPublishParams, load_publish_claim, is_claimable, publishing_row, claim_publish_body,
  claim_publish, publish_candidates, any_whisper, claim_candidate, claim_next_body,
  claim_next_publish,
}

load_publish_claim_state : (env : Env) (id : Uuid) (db : Db) → (load_publish_claim env id db).1 ≡ db
unfolding load_publish_claim load_whisper_projection
load_publish_claim_state env id db = ground arith

-- The changes of the publication state that the calls make, drawn one by one.
infix 40 ◌⇾◌
pub data ◌⇾◌ : PublishState → PublishState → Type 0 where
  take_up : pending ⇾ publishing
  take_again : retry_wait ⇾ publishing
  deliver : publishing ⇾ published
  postpone : publishing ⇾ retry_wait
  give_up : publishing ⇾ failed

from_state : {a b c : PublishState} → a ≡ b → a ⇾ c → b ⇾ c
from_state same e = rw (← same) e

claimable-edge :
    (now : Time) (x : WhisperRow) → is_claimable now x ≡ true → x.publish_state ⇾ publishing
claimable-edge now x h = elim (Bool-cases (x.publish_state == pending)) [
  | inl waits ↦ rw ((publish_eq.beq_iff x.publish_state pending).0 waits) take_up
  | inr other ↦
      rw ((publish_eq.beq_iff x.publish_state retry_wait).0 (ground (arith, h, other))) take_again
]

-- The row of `id` is a live one under a claim, or `id` is not chosen.
candidate-claimable :
    (locked : Uuid → Bool) (now : Time) (db : Db) (w x : WhisperRow) (ws : List WhisperRow)
    → Distinct whisper_key db.whispers
    → publish_candidates locked now db ≡ w ∷ ws
    → find_whisper w.id db ≡ some x
    → is_claimable now x ≡ true
unfolding publish_candidates has_key
candidate-claimable locked now db w x ws keys chosen found =
    let passed =
      select_sorted-passes whisper_key w.id
        (λ (r : WhisperRow). is_claimable now r && not (locked r.id))
        (λ (r : WhisperRow). r.next_publish_attempt_at) (λ (r : WhisperRow). r.created_at)
        whisper_key whisper_key 1 db.whispers x keys found (rw chosen (rw (beq_refl w.id) refl)) in
    ground (arith, passed)

module _ (id : Uuid) (s : PublishState) (st : WhisperStatus) where
  -- Keys are distinct, and the row of `id` has status `st` and publication state `s`.
  unfoldable pub Held : Db → Type 0
  Held db =
      Distinct whisper_key db.whispers
      × ((w : WhisperRow) × (find_whisper id db ≡ some w) × (w.publish_state ≡ s) × (w.status ≡ st))

  -- The same after one change of the publication state at most.
  unfoldable pub Moved : Db → Type 0
  Moved db =
      Distinct whisper_key db.whispers
      × ((w : WhisperRow) × (find_whisper id db ≡ some w)
          × ((s ≡ w.publish_state) ⊎ (s ⇾ w.publish_state))
          × (w.status ≡ st))

  pub Held-Moved : (db : Db) → Held db → Moved db
  unfolding Held Moved
  Held-Moved db (d, (w, found, state, same)) = (d, (w, found, inl (sym state), same))

  pub update-Moved :
      (k : Uuid) (p : WhisperRow → Bool) (f : WhisperRow → WhisperRow) (db : Db)
      → ((x : WhisperRow) → whisper_key (f x) ≡ whisper_key x)
      → ((x : WhisperRow) → (f x).status ≡ x.status)
      → ((x : WhisperRow)
          → find_whisper k db ≡ some x
          → p x ≡ true
          → x.publish_state ⇾ (f x).publish_state)
      → Held db
      → Moved (update_whisper k p f db).1
  unfolding Held Moved
  update-Moved k p f db keys stays moves (d, (w, found, state, same)) =
      let image = find-modify whisper_key k id p f db.whispers keys in
      (
        Distinct-modify whisper_key k p f db.whispers keys d,
        elim (Bool-cases (k == id && p w)) [
          | inl hit ↦ (
            f w,
            ground (arith, image, found),
            inr (
                from_state state (
                  moves w
                    (ap (λ i. find_whisper i db) ((nat_eq.beq_iff k id).0 (ground arith)) ∙ found)
                    (ground arith))),
            stays w ∙ same,
          )
          | inr miss ↦ (w, ground (arith, image, found), inl (sym state), same)
        ],
      )

  load-Moved : (env : Env) (k : Uuid) (db : Db) → Moved db → Moved (load_publish_claim env k db).1
  load-Moved env k db h = rw (load_publish_claim_state env k db) h

  pub claim_publish-Moved :
      (env : Env) (p : ClaimPublishParams) (db : Db) → Held db → Moved (claim_publish env p db).1
  unfolding claim_publish claim_publish_body
  claim_publish-Moved env p db h =
      let now = now_or env.clock p.now in
      let claimed =
        update-Moved p.whisper_id (is_claimable now) (publishing_row p.lease_until now) db
          (λ x. refl) (λ x. refl) (λ x found pass. claimable-edge now x pass) h in
      if_keeps Moved (p.whisper_id == nil_uuid || not (after p.lease_until now))
        (raise invalid_input) (transaction (claim_publish_body env p now)) db (λ _. Held-Moved db h)
        (λ _. transaction_keeps Moved (claim_publish_body env p now) db (Held-Moved db h) (
          bind_keeps Moved
            (update_whisper p.whisper_id (is_claimable now) (publishing_row p.lease_until now))
            (λ hit. require hit not_active >> load_publish_claim env p.whisper_id) db claimed
            (λ hit _.
              require_keeps Moved hit not_active (load_publish_claim env p.whisper_id) _ claimed
                (λ _. load-Moved env p.whisper_id _ claimed))))

  claim_candidate-Moved :
      (env : Env) (locked : Uuid → Bool) (lease now : Time) (ws : List WhisperRow) (db : Db)
      → publish_candidates locked now db ≡ ws
      → Held db
      → Moved (claim_candidate env lease now ws db).1
  unfolding claim_candidate Held
  claim_candidate-Moved env locked lease now [] db chosen h = Held-Moved db h
  claim_candidate-Moved env locked lease now (w ∷ ws) db chosen h = load-Moved env w.id _ (
      update-Moved w.id any_whisper (publishing_row lease now) db (λ x. refl) (λ x. refl)
        (λ x found _.
          claimable-edge now x (candidate-claimable locked now db w x ws h.0 chosen found))
        h)

  pub claim_next_publish-Moved :
      (env : Env) (locked : Uuid → Bool) (value lease : Time) (db : Db)
      → Held db
      → Moved (claim_next_publish env locked value lease db).1
  unfolding claim_next_publish claim_next_body
  claim_next_publish-Moved env locked value lease db h =
      let now = now_or env.clock value in
      if_keeps Moved (not (after lease now)) (raise invalid_input)
        (transaction (claim_next_body env locked lease now)) db (λ _. Held-Moved db h)
        (λ _.
          transaction_keeps Moved (claim_next_body env locked lease now) db (Held-Moved db h) (
            claim_candidate-Moved env locked lease now (publish_candidates locked now db) db refl
              h))
