-- ===== src/Repository/Drafts/Lease.antt =====
-- What the ingest lease of internal/repository/drafts.go guarantees.
use secretmediabot.Base.{
  ℤ, ◌≡◌, ◌≢◌, ◌<◌, refl, sym, ap, ◌∙◌, Bool, true, false, ◌&&◌, ◌||◌, not, Option, none, some,
  Uuid, Time, ◌==◌, nat_eq, int_eq, after, arith, inl, inr, Bool-cases, is_positive, nil_uuid,
}
use secretmediabot.Base.Table.{Distinct, matches}
use secretmediabot.Base.Table.Laws.{
  find-modify_hit, matches-true, matches-find, modify_skip, Distinct-modify,
}
use secretmediabot.Base.Select.{latest-passes, latest-find}
use secretmediabot.Domain.Status.{awaiting_media, ingesting_media, draft_eq}
use secretmediabot.Domain.Draft.{Draft}
use secretmediabot.Repository.Errors.{ok, conflict, invalid_input}
use secretmediabot.Repository.Rows.{DraftRow, Db}
use secretmediabot.Repository.Tx.{
  now_or, raise, require, Keeps, if-Keeps, bind-Keeps, require-Keeps, ◌>>◌,
}
use secretmediabot.Repository.Mapping.{Env}
use secretmediabot.Repository.Cleanup.{draft_key, is_past}
use secretmediabot.Repository.Drafts.{
  ClaimDraftIngestParams, find_draft, update_draft, is_ingestable, ingesting_row, returned_draft,
  draft_to_domain, claim_ingest_statement, claim_draft_ingest, candidate_draft, move_candidate,
  claim_latest_draft_ingest, draft_created, any_draft,
}

-- The row of the draft is under a lease.
abbrev pub IsHeld : Uuid → Time → Db → Type 0
IsHeld id lease db =
    (d : DraftRow) × (find_draft id db ≡ some d)
    × (d.state ≡ ingesting_media)
    × (d.ingest_lease_until ≡ some lease)

returned_draft_state : (id : Uuid) (db : Db) → (returned_draft id db).1 ≡ db
unfolding returned_draft
returned_draft_state id db = ground arith

statement-IsHeld :
    (p : ClaimDraftIngestParams) (now : Time) (db : Db) (d : Draft)
    → (claim_ingest_statement p now db).0 ≡ ok d
    → IsHeld p.draft_id p.lease_until (claim_ingest_statement p now db).1
unfolding claim_ingest_statement
statement-IsHeld p now db d done =
    elim (Bool-cases (matches draft_key p.draft_id (is_ingestable p.sender_id now) db.drafts)) [
      | inl hit ↦
          let (x, found, pass) =
            matches-true draft_key p.draft_id (is_ingestable p.sender_id now) db.drafts hit in
          rw (hit, returned_draft_state)
            (
              ingesting_row now p.lease_until x,
              find-modify_hit draft_key p.draft_id (is_ingestable p.sender_id now)
                  (ingesting_row now p.lease_until) db.drafts x (λ y. refl) found pass,
              refl,
              refl,
            )
      | inr miss ↦ cc (rw miss at done)
    ]

claim_draft_ingest-IsHeld :
    (env : Env) (p : ClaimDraftIngestParams) (db : Db) (d : Draft)
    → (claim_draft_ingest env p db).0 ≡ ok d
    → IsHeld p.draft_id p.lease_until (claim_draft_ingest env p db).1
unfolding claim_draft_ingest
claim_draft_ingest-IsHeld env p db d done =
    let now = now_or env.clock p.now in
    elim (Bool-cases
      (p.draft_id == nil_uuid || not (is_positive p.sender_id) || not (after p.lease_until now))) [
        | inl bad ↦ cc (rw bad at done)
        | inr good ↦ rw good (statement-IsHeld p now db d (rw good at done))
      ]

-- A held row is not to be claimed.
held-unclaimable :
    (sender : ℤ) (now lease : Time) (x : DraftRow)
    → x.state ≡ ingesting_media
    → x.ingest_lease_until ≡ some lease
    → now < lease
    → is_ingestable sender now x ≡ false
held-unclaimable sender now lease x st held early =
    rw
      (
        ap (λ t. t == awaiting_media) st,
        ap (λ t. t == ingesting_media) st,
        ap (λ o. is_past o now) held,
      )
      (ground (arith, early))

claim-refused :
    (env : Env) (q : ClaimDraftIngestParams) (db : Db) (x : DraftRow)
    → find_draft q.draft_id db ≡ some x
    → is_ingestable q.sender_id (now_or env.clock q.now) x ≡ false
    → ((e : Draft) → (claim_draft_ingest env q db).0 ≢ ok e)
      × ((claim_draft_ingest env q db).1 ≡ db)
unfolding claim_draft_ingest claim_ingest_statement
claim-refused env q db x found out =
    let now = now_or env.clock q.now in
    elim (Bool-cases
      (q.draft_id == nil_uuid || not (is_positive q.sender_id) || not (after q.lease_until now))) [
        | inl bad ↦ rw bad ((λ e h. cc), refl)
        | inr good ↦
            let miss =
              matches-find draft_key q.draft_id (is_ingestable q.sender_id now) db.drafts x found
              ∙ out in
            rw (good, miss)
              (
                (λ e h. cc),
                ap (λ ds. record db { drafts = ds })
                    (modify_skip draft_key q.draft_id (is_ingestable q.sender_id now)
                      (ingesting_row now q.lease_until) db.drafts x found out),
              )
      ]

-- While the lease of a successful ClaimDraftIngest runs, no other ClaimDraftIngest of the draft, of whatever sender, succeeds,
-- and the database stays as the first claim left it.
pub claim_draft_ingest-excludes :
    (env later : Env) (p q : ClaimDraftIngestParams) (db : Db) (d : Draft)
    → (claim_draft_ingest env p db).0 ≡ ok d
    → q.draft_id ≡ p.draft_id
    → now_or later.clock q.now < p.lease_until
    → ((e : Draft) → (claim_draft_ingest later q (claim_draft_ingest env p db).1).0 ≢ ok e)
      × ((claim_draft_ingest later q (claim_draft_ingest env p db).1).1
          ≡ (claim_draft_ingest env p db).1)
claim_draft_ingest-excludes env later p q db d done same early =
    let (x, found, st, lease) = claim_draft_ingest-IsHeld env p db d done in
    claim-refused later q (claim_draft_ingest env p db).1 x (rw same found)
      (held-unclaimable q.sender_id (now_or later.clock q.now) p.lease_until x st lease early)

candidate-find :
    (locked : Uuid → Bool) (p : DraftRow → Bool) (db : Db) (x : DraftRow)
    → Distinct draft_key db.drafts
    → candidate_draft locked p db ≡ some x
    → find_draft x.id db ≡ some x
unfolding candidate_draft
candidate-find locked p db x keys h = latest-find draft_key _ _ _ db.drafts x keys h

candidate-passes :
    (locked : Uuid → Bool) (p : DraftRow → Bool) (db : Db) (x : DraftRow)
    → candidate_draft locked p db ≡ some x
    → p x ≡ true
unfolding candidate_draft
candidate-passes locked p db x h = ground (
  arith,
  latest-passes (λ (d : DraftRow). p d && not (locked d.id)) draft_created draft_key db.drafts x h,
)

-- No two drafts share a key.
abbrev HasKeys : Db → Type 0
HasKeys db = Distinct draft_key db.drafts

claim-HasKeys : (env : Env) (p : ClaimDraftIngestParams) → Keeps HasKeys (claim_draft_ingest env p)
unfolding claim_draft_ingest claim_ingest_statement
claim-HasKeys env p =
    let now = now_or env.clock p.now in
    let test = is_ingestable p.sender_id now in
    let step = ingesting_row now p.lease_until in
    if-Keeps HasKeys
      (p.draft_id == nil_uuid || not (is_positive p.sender_id) || not (after p.lease_until now))
      (raise invalid_input) (claim_ingest_statement p now) (λ d h. h)
      (bind-Keeps HasKeys (update_draft p.draft_id test step)
        (λ hit. require hit conflict >> returned_draft p.draft_id)
        (λ d h. Distinct-modify draft_key p.draft_id test step d.drafts (λ x. refl) h)
        (λ hit.
          bind-Keeps HasKeys (require hit conflict) (λ _. returned_draft p.draft_id)
            (require-Keeps HasKeys hit conflict)
            (λ _ d h. rw (returned_draft_state p.draft_id d) h)))

returned_draft-ok :
    (id : Uuid) (db : Db) (d : DraftRow) (e : Draft)
    → find_draft id db ≡ some d
    → (returned_draft id db).0 ≡ ok e
    → e ≡ draft_to_domain d
unfolding returned_draft
returned_draft-ok id db d e found h = ground (arith, found, h)

move_candidate-ok :
    (f : DraftRow → DraftRow) (o : Option DraftRow) (db : Db) (e : Draft)
    → ((x : DraftRow) → (f x).id ≡ x.id)
    → ((x : DraftRow) → o ≡ some x → find_draft x.id db ≡ some x)
    → (move_candidate f o db).0 ≡ ok e
    → (x : DraftRow) × (o ≡ some x) × (e.id ≡ x.id)
unfolding move_candidate
move_candidate-ok f none db e ids there h = cc
move_candidate-ok f (some x) db e ids there h =
    let moved = find-modify_hit draft_key x.id any_draft f db.drafts x ids (there x refl) refl in
    (x, refl, ap (λ (d : Draft). d.id) (returned_draft-ok x.id _ (f x) e moved h) ∙ ids x)

-- While the lease of a successful ClaimDraftIngest runs, ClaimLatestDraftIngest returns another
-- draft if it returns one, where draft keys are distinct.
pub claim_latest-other :
    (env later : Env) (p : ClaimDraftIngestParams) (locked : Uuid → Bool) (sender : ℤ)
    (value lease : Time) (db : Db) (d e : Draft)
    → Distinct draft_key db.drafts
    → (claim_draft_ingest env p db).0 ≡ ok d
    → now_or later.clock value < p.lease_until
    → (claim_latest_draft_ingest later locked sender value lease (claim_draft_ingest env p db).1).0
      ≡ ok e
    → e.id ≢ p.draft_id
unfolding claim_latest_draft_ingest
claim_latest-other env later p locked sender value lease db d e keys done early got =
    let now = now_or later.clock value in
    let mid = (claim_draft_ingest env p db).1 in
    let keys' = claim-HasKeys env p db keys in
    let chosen = candidate_draft locked (is_ingestable sender now) mid in
    let (x, found, st, held) = claim_draft_ingest-IsHeld env p db d done in
    elim (Bool-cases (not (is_positive sender) || not (after lease now))) [
      | inl bad ↦ cc (rw bad at got)
      | inr good ↦
          let (y, picked, same) =
            move_candidate-ok (ingesting_row now lease) chosen mid e (λ z. refl)
              (λ z c. candidate-find locked (is_ingestable sender now) mid z keys' c)
              (rw good at got) in
          λ eq.
            let row : some x ≡ some y =
              sym found
              ∙ ap (λ i. find_draft i mid) (sym eq ∙ same)
              ∙ candidate-find locked (is_ingestable sender now) mid y keys' picked in
            ground (
              arith,
              row,
              candidate-passes locked (is_ingestable sender now) mid y picked,
              held-unclaimable sender now p.lease_until x st held early,
            )
    ]
