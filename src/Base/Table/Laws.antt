-- ===== src/Base/Table/Laws.antt =====
-- The laws of reading and updating a table by its key.
use Prim.Native.Nat.{ℕ, ◌+◌}
use mathlib.Core.Path.{◌≡◌, refl}
use mathlib.Core.Bool.{Bool, true, false}
use mathlib.Core.Option.{Option, none, some}
use mathlib.Core.Option
use mathlib.Core.List.{List, [], ◌∷◌, ◌++◌}
use native.Mathlib.Omega.{arith}
use mathlib.Core.Logic.{◌⊎◌, inl, inr}
use secretmediabot.Base.Tests.{Eq, ◌==◌, if◌then◌else◌, Bool-cases, Option-cases}
use secretmediabot.Base.Lists.{count}
use secretmediabot.Base.Table.{find_where, find, modify, matches, Distinct}

-- 1 for a row that passes a test, 0 for another.
abbrev pub bit : Bool → ℕ
bit true = 1
bit false = 0

abbrev pub when {ℓ} : {A : Type ℓ} → (A → Bool) → (A → A) → A → A
when p f x = if p x then f x else x

module _ {ℓ κ} {A : Type ℓ} {K : Type κ} ⦃e : Eq K⦄ (key : A → K) where
  pub find-key : (k : K) (xs : List A) (x : A) → find key k xs ≡ some x → key x ≡ k
  unfolding find
  find-key k [] x h = cc
  find-key k (y ∷ ys) x h = ground (arith, e.beq_iff (key y) k, find-key k ys x)

  pub find-modify :
      (k j : K) (p : A → Bool) (f : A → A) (xs : List A)
      → ((x : A) → key (f x) ≡ key x)
      → find key j (modify key k p f xs)
        ≡ (if k == j then Option.map (when p f) (find key j xs) else find key j xs)
  unfolding find modify
  find-modify k j p f [] h = ground arith
  find-modify k j p f (x ∷ xs) h = ground (
    arith,
    h x,
    e.beq_iff (key x) k,
    e.beq_iff (key x) j,
    e.beq_iff (key (f x)) j,
    e.beq_iff k j,
    find-modify k j p f xs h,
  )

  pub modify-none :
      (k : K) (p : A → Bool) (f : A → A) (xs : List A)
      → find key k xs ≡ none
      → modify key k p f xs ≡ xs
  unfolding find modify
  modify-none k p f [] h = refl
  modify-none k p f (x ∷ xs) h = ground (arith, modify-none k p f xs)

  pub modify_skip :
      (k : K) (p : A → Bool) (f : A → A) (xs : List A) (x : A)
      → find key k xs ≡ some x
      → p x ≡ false
      → modify key k p f xs ≡ xs
  unfolding find modify
  modify_skip k p f [] x h q = refl
  modify_skip k p f (y ∷ ys) x h q = ground (arith, modify_skip k p f ys x)

  pub matches-find :
      (k : K) (p : A → Bool) (xs : List A) (x : A)
      → find key k xs ≡ some x
      → matches key k p xs ≡ p x
  unfolding find matches
  matches-find k p [] x h = cc
  matches-find k p (y ∷ ys) x h = ground (arith, matches-find k p ys x)

  pub matches-true :
      (k : K) (p : A → Bool) (xs : List A)
      → matches key k p xs ≡ true
      → (x : A) × (find key k xs ≡ some x) × (p x ≡ true)
  unfolding find matches
  matches-true k p [] h = cc
  matches-true k p (y ∷ ys) h = elim (Bool-cases (key y == k)) [
    | inl hit ↦ (y, rw hit, rw (hit, matches) at h)
    | inr miss ↦
        let (x, f, t) = matches-true k p ys (rw (miss, matches) at h) in (x, rw (miss, find) f, t)
  ]

  -- How an update of one row changes the number of rows that pass another test.
  pub count-modify :
      (k : K) (p q : A → Bool) (f : A → A) (xs : List A) (x : A)
      → find key k xs ≡ some x
      → p x ≡ true
      → count q (modify key k p f xs) + bit (q x) ≡ count q xs + bit (q (f x))
  unfolding find modify count
  count-modify k p q f [] x h t = cc
  count-modify k p q f (y ∷ ys) x h t = ground (arith, count-modify k p q f ys x)

  find-modify-none :
      (k j : K) (p : A → Bool) (f : A → A) (xs : List A)
      → ((x : A) → key (f x) ≡ key x)
      → find key j xs ≡ none
      → find key j (modify key k p f xs) ≡ none
  find-modify-none k j p f xs h n = rw (find-modify k j p f xs h, n) (ground arith)

  pub Distinct-modify :
      (k : K) (p : A → Bool) (f : A → A) (xs : List A)
      → ((x : A) → key (f x) ≡ key x)
      → Distinct key xs
      → Distinct key (modify key k p f xs)
  unfolding modify
  Distinct-modify k p f [] h d = d
  Distinct-modify k p f (x ∷ xs) h d =
      ground (arith, h x, Distinct-modify k p f xs h d.1, find-modify-none k (key x) p f xs h d.0)

  -- With distinct keys a row found by any test is the row of its key.
  pub find_where-find :
      (p : A → Bool) (xs : List A) (x : A)
      → Distinct key xs
      → find_where p xs ≡ some x
      → find key (key x) xs ≡ some x
  unfolding find find_where
  find_where-find p [] x d h = cc
  find_where-find p (y ∷ ys) x d h = ground (
    arith,
    e.beq_iff (key x) (key x),
    e.beq_iff (key y) (key x),
    e.beq_iff (key y) (key y),
    find_where-find p ys x d.1,
  )

  -- A row that a test finds is found again after an update of it that keeps the test.
  pub find_where-modify :
      (q p : A → Bool) (f : A → A) (xs : List A) (x : A)
      → Distinct key xs
      → find_where q xs ≡ some x
      → p x ≡ true
      → q (f x) ≡ true
      → find_where q (modify key (key x) p f xs) ≡ some (f x)
  unfolding find_where modify find
  find_where-modify q p f [] x d h pass kept = cc
  find_where-modify q p f (y ∷ ys) x d h pass kept = elim (Bool-cases (q y)) [
    | inl hit ↦
        let same : y ≡ x = cc (rw hit at h) in
        rw (same, (e.beq_iff (key x) (key x)).1 refl, pass, kept) refl
    | inr miss ↦
        let rest : find_where q ys ≡ some x = rw miss at h in
        let there = find_where-find q ys x d.1 rest in
        let other : (key y == key x) ≡ false =
          ground (arith, d.0, there, e.beq_iff (key y) (key x), e.beq_iff (key x) (key y)) in
        rw (other, miss) (find_where-modify q p f ys x d.1 rest pass kept)
  ]

  -- A row after an update is a row from before it, or the updated one.
  pub find-modify_cases :
      (k j : K) (p : A → Bool) (f : A → A) (xs : List A) (y : A)
      → ((x : A) → key (f x) ≡ key x)
      → find key j (modify key k p f xs) ≡ some y
      → (find key j xs ≡ some y)
        ⊎ ((x : A) × (k ≡ j) × (find key j xs ≡ some x) × (p x ≡ true) × (y ≡ f x))
  find-modify_cases k j p f xs y h t = elim (Option-cases (find key j xs)) [
    | inl missing ↦ absurd (ground (arith, find-modify k j p f xs h, e.beq_iff k j))
    | inr (x, found) ↦ elim (Bool-cases (k == j)) [
      | inl same ↦ elim (Bool-cases (p x)) [
        | inl pass ↦
            inr (x, (e.beq_iff k j).0 same, found, pass, ground (arith, find-modify k j p f xs h))
        | inr skip ↦ inl (ground (arith, find-modify k j p f xs h))
      ]
      | inr other ↦ inl (ground (arith, find-modify k j p f xs h))
    ]
  ]

  pub find-modify_hit :
      (k : K) (p : A → Bool) (f : A → A) (xs : List A) (x : A)
      → ((x : A) → key (f x) ≡ key x)
      → find key k xs ≡ some x
      → p x ≡ true
      → find key k (modify key k p f xs) ≡ some (f x)
  find-modify_hit k p f xs x h found pass = ground (arith, find-modify k k p f xs h, e.beq_iff k k)

  -- What an insert leaves of the rows that are there.
  pub find-append :
      (k : K) (xs ys : List A) (x : A) → find key k xs ≡ some x → find key k (xs ++ ys) ≡ some x
  unfolding find
  find-append k [] ys x h = cc
  find-append k (y ∷ xs) ys x h = ground (arith, find-append k xs ys x)

  pub find-append-none :
      (k : K) (xs : List A) (x : A)
      → find key k xs ≡ none
      → (key x == k) ≡ false
      → find key k (xs ++ x ∷ []) ≡ none
  unfolding find
  find-append-none k [] x h o = ground arith
  find-append-none k (y ∷ xs) x h o = ground (arith, find-append-none k xs x)

  pub find-append-some :
      (xs : List A) (x : A) → find key (key x) xs ≡ none → find key (key x) (xs ++ x ∷ []) ≡ some x
  unfolding find
  find-append-some [] x h = ground (arith, e.beq_iff (key x) (key x))
  find-append-some (y ∷ xs) x h = ground (arith, find-append-some xs x)

  -- A test that the rows of a key pass, and no row does.
  pub find_where-none :
      (p : A → Bool) (xs : List A) (k : K)
      → ((x : A) → (key x == k) ≡ true → p x ≡ true)
      → find_where p xs ≡ none
      → find key k xs ≡ none
  unfolding find find_where
  find_where-none p [] k h n = refl
  find_where-none p (y ∷ xs) k h n = ground (arith, h y, find_where-none p xs k h)

  pub Distinct-append :
      (xs : List A) (x : A)
      → find key (key x) xs ≡ none
      → Distinct key xs
      → Distinct key (xs ++ x ∷ [])
  unfolding find
  Distinct-append [] x n d = (refl, tt)
  Distinct-append (y ∷ xs) x n d = (
    find-append-none (key y) xs x d.0
        (ground (arith, e.beq_iff (key x) (key y), e.beq_iff (key y) (key x))),
    Distinct-append xs x (ground arith) d.1,
  )
