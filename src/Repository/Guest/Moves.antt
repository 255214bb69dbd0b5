-- ===== src/Repository/Guest/Moves.antt =====
-- How the statements of internal/repository/guest.go move a request.
use secretmediabot.Base.{
  ℤ, ◌≡◌, refl, ap, ◌∙◌, ◌⊎◌, inl, inr, Bool, true, ◌&&◌, Option, none, some, List, [], ◌∷◌, map,
  Uuid, ◌==◌, nat_eq, int_eq, list_eq, arith, Bool-cases,
}
use secretmediabot.Base.Table.{Distinct, find}
use secretmediabot.Base.Table.Laws.{find-modify, Distinct-modify}
use secretmediabot.Repository.Rows.{
  GuestState, awaiting_secret, ingesting_secret, ready, opening, opened, cancelled, GuestRequestRow,
  Db,
}
use secretmediabot.Repository.Guest.{request_key, find_request, update_request}

-- The legal edges of a request's state under these calls.
infix 40 ◌⇢◌
pub data ◌⇢◌ : GuestState → GuestState → Type 0 where
  ingest : awaiting_secret ⇢ ingesting_secret
  give_back : ingesting_secret ⇢ awaiting_secret
  prepare : ingesting_secret ⇢ ready
  reserve : ready ⇢ opening
  release : opening ⇢ ready
  deliver : opening ⇢ opened
  withdraw : awaiting_secret ⇢ cancelled
  withdraw_ingest : ingesting_secret ⇢ cancelled
  withdraw_ready : ready ⇢ cancelled

pub data GuestPath : GuestState → GuestState → Type 0 where
  here : {s : GuestState} → GuestPath s s
  step : {s t u : GuestState} → s ⇢ t → GuestPath t u → GuestPath s u

abbrev pub Stays : GuestState → GuestState → Type 0
Stays s t = (s ≡ t) ⊎ (s ⇢ t)

snoc : {s t u : GuestState} → GuestPath s t → Stays t u → GuestPath s u
snoc r (inl same) = rw (← same) r
snoc GuestPath.here (inr e) = GuestPath.step e GuestPath.here
snoc (GuestPath.step f r) (inr e) = GuestPath.step f (snoc r (inr e))

final : {s t : GuestState} → s ⇢ t → (s ≡ opened) ⊎ (s ≡ cancelled) → ⊥
final ingest h = ground arith
final give_back h = ground arith
final prepare h = ground arith
final reserve h = ground arith
final release h = ground arith
final deliver h = ground arith
final withdraw h = ground arith
final withdraw_ingest h = ground arith
final withdraw_ready h = ground arith

pub path-final : {s t : GuestState} → GuestPath s t → (s ≡ opened) ⊎ (s ≡ cancelled) → t ≡ s
path-final GuestPath.here h = refl
path-final (GuestPath.step e r) h = absurd (final e h)

-- A bound target stays bound.
abbrev pub KeepsTarget : Option ℤ → Option ℤ → Type 0
KeepsTarget before after = (t : ℤ) → before ≡ some t → after ≡ some t

-- One change of a row: its sender stays, a bound target stays, and its state moves along an edge at most.
pub record Step (x y : GuestRequestRow) : Type 0 where
  pub same_key : y.id ≡ x.id
  pub same_sender : y.sender_id ≡ x.sender_id
  pub same_target : KeepsTarget x.target_user_id y.target_user_id
  pub moves : Stays x.state y.state

-- Any number of changes.
pub record Led (x y : GuestRequestRow) : Type 0 where
  pub sender_kept : y.sender_id ≡ x.sender_id
  pub target_kept : KeepsTarget x.target_user_id y.target_user_id
  pub path : GuestPath x.state y.state

pub Led-refl : (x : GuestRequestRow) → Led x x
Led-refl x = record { sender_kept = refl; target_kept = λ t h. h; path = GuestPath.here }

Led-Step : (x y z : GuestRequestRow) → Led x y → Step y z → Led x z
Led-Step x y z l s = record {
  sender_kept = s.same_sender ∙ l.sender_kept;
  target_kept = λ t h. s.same_target t (l.target_kept t h);
  path = snoc l.path s.moves;
}

pub some_same : (a b : GuestRequestRow) → some a ≡ some b → a ≡ b
some_same a b h = cc

find-map :
    (k : Uuid) (f : GuestRequestRow → GuestRequestRow) (rs : List GuestRequestRow)
    (x : GuestRequestRow)
    → ((y : GuestRequestRow) → (f y).id ≡ y.id)
    → find request_key k rs ≡ some x
    → find request_key k (map f rs) ≡ some (f x)
unfolding find
find-map k f [] x keys h = cc
find-map k f (y ∷ rs) x keys h = elim (Bool-cases (y.id == k)) [
  | inl hit ↦
      let moved : ((f y).id == k) ≡ true = ap (λ (i : Uuid). i == k) (keys y) ∙ hit in
      rw moved (ap (λ z. some (f z)) (some_same y x (rw hit at h)))
  | inr miss ↦ rw (keys y, miss) (find-map k f rs x keys (rw miss at h))
]

find-map-none :
    (k : Uuid) (f : GuestRequestRow → GuestRequestRow) (rs : List GuestRequestRow)
    → ((y : GuestRequestRow) → (f y).id ≡ y.id)
    → find request_key k rs ≡ none
    → find request_key k (map f rs) ≡ none
unfolding find
find-map-none k f [] keys h = refl
find-map-none k f (y ∷ rs) keys h = elim (Bool-cases (y.id == k)) [
  | inl hit ↦ cc (rw hit at h)
  | inr miss ↦ rw (keys y, miss) (find-map-none k f rs keys (rw miss at h))
]

map-Distinct :
    (f : GuestRequestRow → GuestRequestRow) (rs : List GuestRequestRow)
    → ((y : GuestRequestRow) → (f y).id ≡ y.id)
    → Distinct request_key rs
    → Distinct request_key (map f rs)
map-Distinct f [] keys d = tt
map-Distinct f (y ∷ rs) keys d =
    (rw (keys y) (find-map-none y.id f rs keys d.0), map-Distinct f rs keys d.1)

module _ (id : Uuid) (r : GuestRequestRow) where
  -- Keys are distinct, and the row of `id` came from `r`.
  unfoldable pub Traced : Db → Type 0
  Traced db =
      Distinct request_key db.guest_requests
      × ((x : GuestRequestRow) × (find_request id db ≡ some x) × Led r x)

  pub update-Traced :
      (k : Uuid) (p : GuestRequestRow → Bool) (f : GuestRequestRow → GuestRequestRow) (db : Db)
      → ((x : GuestRequestRow) → request_key (f x) ≡ request_key x)
      → ((x : GuestRequestRow) → find_request k db ≡ some x → p x ≡ true → Step x (f x))
      → Traced db
      → Traced (update_request k p f db).1
  unfolding Traced
  update-Traced k p f db keys steps (d, (x, found, led)) =
      let image = find-modify request_key k id p f db.guest_requests keys in
      (
        Distinct-modify request_key k p f db.guest_requests keys d,
        elim (Bool-cases (k == id && p x)) [
          | inl hit ↦ (
            f x,
            ground (arith, image, found),
            Led-Step r x (f x) led (
                steps x
                  (ap (λ i. find_request i db) ((nat_eq.beq_iff k id).0 (ground arith)) ∙ found)
                  (ground arith)),
          )
          | inr miss ↦ (x, ground (arith, image, found), led)
        ],
      )

  pub map-Traced :
      (f : GuestRequestRow → GuestRequestRow) (db : Db)
      → ((x : GuestRequestRow) → Step x (f x))
      → Traced db
      → Traced (record db { guest_requests = map f db.guest_requests })
  unfolding Traced
  map-Traced f db steps (d, (x, found, led)) = (
    map-Distinct f db.guest_requests (λ y. (steps y).same_key) d,
    (
      f x,
      find-map id f db.guest_requests x (λ y. (steps y).same_key) found,
      Led-Step r x (f x) led (steps x),
    ),
  )
