-- ===== src/Repository/Finalize/Moves.antt =====
-- How the statements of internal/repository/drafts.go and internal/repository/finalize.go move a
-- draft.
use secretmediabot.Base.{
  ℤ, ◌≡◌, sym, ap, ◌∙◌, ◌⊎◌, inl, inr, Bool, true, false, ◌&&◌, ◌||◌, not, Option, none, some, List,
  [], ◌∷◌, Uuid, ◌==◌, nat_eq, list_eq, int_eq, arith, Bool-cases, is_some,
}
use secretmediabot.Base.Table.{Distinct, find, find_where}
use secretmediabot.Base.Table.Laws.{
  find-modify, find-append, find_where-none, Distinct-modify, Distinct-append,
}
use secretmediabot.Base.Select.{latest-passes, latest-find}
use secretmediabot.Domain.Status.{
  DraftState, awaiting_media, ingesting_media, completed, cancelled, draft_eq,
}
use secretmediabot.Repository.Rows.{DraftRow, Db}
use secretmediabot.Repository.Tx.{pure, take_keeps}
use secretmediabot.Repository.Cleanup.{draft_key}
use secretmediabot.Repository.Drafts.{
  find_draft, update_draft, clashes, insert_draft, returned_draft, move_candidate, candidate_draft,
  any_draft, draft_to_domain,
}

-- The changes of a draft's state that the calls make, drawn one by one.
infix 40 ◌↣◌
pub data ◌↣◌ : DraftState → DraftState → Type 0 where
  ingest : awaiting_media ↣ ingesting_media
  give_back : ingesting_media ↣ awaiting_media
  finish : ingesting_media ↣ completed
  withdraw : awaiting_media ↣ cancelled
  withdraw_ingest : ingesting_media ↣ cancelled

-- One change at most.
abbrev pub Stays : DraftState → DraftState → Type 0
Stays s t = (s ≡ t) ⊎ (s ↣ t)

from_state : {a b c : DraftState} → a ≡ b → Stays a c → Stays b c
from_state same e = rw (← same) e

clash_free-none :
    (d : DraftRow) (ds : List DraftRow)
    → is_some (find_where (clashes d) ds) ≡ false
    → find draft_key d.id ds ≡ none
unfolding clashes
clash_free-none d ds new =
    find_where-none draft_key (clashes d) ds d.id (λ x same. ground (arith, same))
      (ground (arith, new))

module _ (id : Uuid) (s : DraftState) (sender : ℤ) where
  -- Keys are distinct; the row of `id` is in state `s` and has one sender.
  unfoldable pub Held : Db → Type 0
  Held db =
      Distinct draft_key db.drafts
      × ((d : DraftRow) × (find_draft id db ≡ some d) × (d.state ≡ s) × (d.sender_id ≡ sender))

  -- The same after one change of the state at most.
  unfoldable pub Moved : Db → Type 0
  Moved db =
      Distinct draft_key db.drafts
      × ((d : DraftRow) × (find_draft id db ≡ some d) × Stays s d.state × (d.sender_id ≡ sender))

  pub Held-Moved : (db : Db) → Held db → Moved db
  unfolding Held Moved
  Held-Moved db (d, (x, found, state, same)) = (d, (x, found, inl (sym state), same))

  pub update-Moved :
      (k : Uuid) (p : DraftRow → Bool) (f : DraftRow → DraftRow) (db : Db)
      → ((x : DraftRow) → draft_key (f x) ≡ draft_key x)
      → ((x : DraftRow) → (f x).sender_id ≡ x.sender_id)
      → ((x : DraftRow) → find_draft k db ≡ some x → p x ≡ true → Stays x.state (f x).state)
      → Held db
      → Moved (update_draft k p f db).1
  unfolding Held Moved
  update-Moved k p f db keys senders moves (d, (x, found, state, same)) =
      let image = find-modify draft_key k id p f db.drafts keys in
      (
        Distinct-modify draft_key k p f db.drafts keys d,
        elim (Bool-cases (k == id && p x)) [
          | inl hit ↦ (
            f x,
            ground (arith, image, found),
            from_state state (
                moves x (ap (λ i. find_draft i db) ((nat_eq.beq_iff k id).0 (ground arith)) ∙ found)
                  (ground arith)),
            senders x ∙ same,
          )
          | inr miss ↦ (x, ground (arith, image, found), inl (sym state), same)
        ],
      )

  pub insert-Moved :
      (known : DraftRow → Bool) (d : DraftRow) (db : Db)
      → Moved db
      → Moved (insert_draft known d db).1
  unfolding Moved insert_draft
  insert-Moved known d db (keys, (x, found, path, same)) =
      elim (Bool-cases (not (known d) || is_some (find_where (clashes d) db.drafts))) [
        | inl refused ↦ rw refused (keys, (x, found, path, same))
        | inr taken ↦ rw taken (
          Distinct-append draft_key db.drafts d (clash_free-none d db.drafts (ground arith)) keys,
          (x, find-append draft_key id db.drafts (d ∷ []) x found, path, same),
        )
      ]

  pub returned-Moved : (k : Uuid) (db : Db) → Moved db → Moved (returned_draft k db).1
  unfolding returned_draft
  returned-Moved k db h =
      take_keeps Moved (find_draft k) (λ row. pure (draft_to_domain row)) db h (λ a _. h)

  pub move-Moved :
      (locked : Uuid → Bool) (p : DraftRow → Bool) (f : DraftRow → DraftRow) (o : Option DraftRow)
      (db : Db)
      → candidate_draft locked p db ≡ o
      → ((x : DraftRow) → draft_key (f x) ≡ draft_key x)
      → ((x : DraftRow) → (f x).sender_id ≡ x.sender_id)
      → ((x : DraftRow) → p x ≡ true → Stays x.state (f x).state)
      → Held db
      → Moved (move_candidate f o db).1
  unfolding move_candidate candidate_draft Held
  move-Moved locked p f none db chosen keys senders moves h = Held-Moved db h
  move-Moved locked p f (some d) db chosen keys senders moves h = returned-Moved d.id _ (
      update-Moved d.id any_draft f db keys senders
        (λ x found _.
          let row = latest-find draft_key _ _ _ db.drafts d h.0 chosen in
          let same : some d ≡ some x = sym row ∙ found in
          let passes = latest-passes _ _ _ db.drafts d chosen in
          moves x (ground (arith, passes, same)))
        h)
