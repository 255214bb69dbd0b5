-- ===== src/Repository/Drafts/Quota.antt =====
-- What `CreateDraft` of internal/repository/drafts.go has checked when it returns a draft.
use secretmediabot.Base.{
  ℤ, ◌≡◌, Bool, true, false, ◌&&◌, ◌||◌, not, none, some, Time, ◌==◌, nat_eq, int_eq, list_eq,
  arith, inl, inr, Bool-cases, or-false, not-false, is_some-false, count, is_some,
}
use secretmediabot.Base.Table.{find_where, find_where_weaker}
use secretmediabot.Base.Table.Laws.{find_where-none, find-append-some}
use secretmediabot.Domain.Status.{awaiting_media, draft_eq}
use secretmediabot.Domain.Draft.{Draft, validate_draft}
use secretmediabot.Domain.Draft.Laws.{IsValid, validate_draft_iff}
use secretmediabot.Repository.Errors.{ok, too_many_active_drafts, whisper_rate_limit}
use secretmediabot.Repository.Rows.{DraftRow, Db}
use secretmediabot.Repository.Tx.{require, transaction, now_or, ◌>>=◌, ◌>>◌}
use secretmediabot.Repository.Success.{Yields, continue-pure-ok, require-Yields, transaction-Yields}
use secretmediabot.Repository.Mapping.{Env}
use secretmediabot.Repository.Cleanup.{draft_key}
use secretmediabot.Repository.Drafts.{
  CreateDraftParams, draft_to_domain, find_draft, is_unfinished, is_active_of, is_recent_of,
  clashes, insert_draft, max_active, max_recent, recent_since, hashed_draft, is_bad_creation,
  created_row, reaches, count_active, count_recent, create_draft_body, create_draft,
}

abbrev pub is_unfinished_of : ℤ → DraftRow → Bool
is_unfinished_of sender d = is_unfinished d && d.sender_id == sender

-- The checks of a draft that is created, and the row that is left: the sender has no draft that is
-- awaiting or ingesting, not even an expired one.
pub record Created (p : CreateDraftParams) (now : Time) (before e : Db) : Type 0 where
  pub few_active :
      reaches (count (is_active_of p.draft.sender_id now) before.drafts) (max_active p) ≡ false
  pub few_recent :
      reaches
        (count (is_recent_of p.draft.sender_id (recent_since p now)) before.whispers)
        (max_recent p)
      ≡ false
  pub none_unfinished : find_where (is_unfinished_of p.draft.sender_id) before.drafts ≡ none
  pub stored : find_draft p.draft.id e ≡ some (created_row p)

not-true : (b : Bool) → not b ≡ true → b ≡ false
not-true b h = ground arith

insert_draft-Created :
    (known : DraftRow → Bool) (p : CreateDraftParams) (now : Time) (db : Db)
    → p.draft.state ≡ awaiting_media
    → reaches (count (is_active_of p.draft.sender_id now) db.drafts) (max_active p) ≡ false
    → reaches
        (count (is_recent_of p.draft.sender_id (recent_since p now)) db.whispers)
        (max_recent p)
      ≡ false
    → Yields (insert_draft known (created_row p)) db (Created p now db)
unfolding insert_draft clashes
insert_draft-Created known p now db awaits active recent a h =
    let row = created_row p in
    elim (Bool-cases (not (known row) || is_some (find_where (clashes row) db.drafts))) [
      | inl clash ↦ cc (rw clash at h)
      | inr free ↦
          let none_clashes : find_where (clashes row) db.drafts ≡ none = ground (arith, free) in
          rw free (record {
            few_active = active;
            few_recent = recent;
            none_unfinished =
                find_where_weaker (is_unfinished_of p.draft.sender_id) (clashes row) db.drafts
                  (λ x h. ground (arith, h, draft_eq.beq_iff p.draft.state awaiting_media))
                  none_clashes;
            stored = find-append-some draft_key db.drafts row (
                find_where-none draft_key (clashes row) db.drafts row.id
                  (λ x same. ground (arith, same)) none_clashes);
          })
    ]

body-Created :
    (known : DraftRow → Bool) (p : CreateDraftParams) (now : Time) (db : Db)
    → p.draft.state ≡ awaiting_media
    → Yields (create_draft_body known p now) db (Created p now db)
unfolding create_draft_body count_active count_recent
body-Created known p now db awaits =
    let P = Created p now db in
    let active = count (is_active_of p.draft.sender_id now) db.drafts in
    let recent = count (is_recent_of p.draft.sender_id (recent_since p now)) db.whispers in
    let insert = insert_draft known (created_row p) in
    require-Yields P (not (reaches active (max_active p))) too_many_active_drafts
      (count_recent p.draft.sender_id (recent_since p now) >>= λ n.
        require (not (reaches n (max_recent p))) whisper_rate_limit >> insert)
      db
      (λ few.
        require-Yields P (not (reaches recent (max_recent p))) whisper_rate_limit insert db
          (λ rare. insert_draft-Created known p now db awaits (not-true _ few) (not-true _ rare)))

-- The draft that is returned is as valid as the one that was checked.
returned-IsValid :
    (p : CreateDraftParams)
    → IsValid (hashed_draft p)
    → p.draft.state ≡ awaiting_media
    → IsValid (draft_to_domain (created_row p))
returned-IsValid p v awaits = record {
  has_id = v.has_id;
  has_sender = v.has_sender;
  has_recipient = v.has_recipient;
  not_to_self = v.not_to_self;
  has_chat = v.has_chat;
  hash_length = v.hash_length;
  state_known = v.state_known;
  has_creation = v.has_creation;
  expires_later = v.expires_later;
  lease_iff = ground (arith, awaits);
  lease_fits = tt;
  completed_time = λ done. cc;
  cancelled_time = λ gone. cc;
}

good_creation :
    (p : CreateDraftParams) (now : Time)
    → is_bad_creation p now ≡ false
    → IsValid (hashed_draft p) × (p.draft.state ≡ awaiting_media)
unfolding is_bad_creation
good_creation p now h =
    let first = (or-false _ _ (or-false _ _ (or-false _ _ (or-false _ _ h).0).0).0).0 in
    let (checks, awaits) = or-false _ _ first in
    let (_, valid) = or-false _ _ checks in
    (
      (validate_draft_iff (hashed_draft p)).0
          (is_some-false (validate_draft (hashed_draft p)) valid),
      (draft_eq.beq_iff p.draft.state awaiting_media).0 (not-false _ awaits),
    )

-- If CreateDraft returns a draft, it is valid and awaits its content, its row is in the table, and the sender had
-- fewer active drafts and fewer recent whispers than the limits and no unfinished draft, not even an expired one.
pub create_draft-Created :
    (known : DraftRow → Bool) (env : Env) (p : CreateDraftParams) (db : Db) (d : Draft)
    → (create_draft known env p db).0 ≡ ok d
    → IsValid d
      × (d.state ≡ awaiting_media)
      × Created p (now_or env.clock p.now) db (create_draft known env p db).1
unfolding create_draft
create_draft-Created known env p db d done =
    let now = now_or env.clock p.now in
    elim (Bool-cases (is_bad_creation p now)) [
      | inl bad ↦ cc (rw bad at done)
      | inr good ↦
          let (valid, awaits) = good_creation p now good in
          let (same, (a, ended), left) =
            continue-pure-ok (transaction (create_draft_body known p now) db)
              (draft_to_domain (created_row p)) d (rw good at done) in
          (
            rw same (returned-IsValid p valid awaits),
            rw same awaits,
            rw (good, left)
                (transaction-Yields (Created p now db) (create_draft_body known p now) db
                  (body-Created known p now db awaits) a ended),
          )
    ]
