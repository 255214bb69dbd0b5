-- ===== src/Base/Select.antt =====
-- `UPDATE` and `DELETE` of the rows that a subquery with `ORDER BY` and `LIMIT` selects.
use Prim.Native.Nat.{ℕ, zero, suc, ◌≤◌}
use mathlib.Core.Path.{◌≡◌, refl}
use mathlib.Core.Logic.{◌⊎◌, inl, inr}
use mathlib.Core.Bool.{Bool, true, false, ◌&&◌, ◌||◌, not}
use mathlib.Core.Option.{Option, none, some}
use mathlib.Core.Option
use mathlib.Core.List.{List, [], ◌∷◌}
use native.Mathlib.Omega.{arith}
use secretmediabot.Base.Tests.{Eq, ◌==◌, if◌then◌else◌, Bool-cases, Option-cases, ltb, leb, nat_eq}
use secretmediabot.Base.Lists.{count, take, All}
use secretmediabot.Base.Table.{find, Distinct}

module _ {ℓ} {A : Type ℓ} where
  unfoldable pub filter : (A → Bool) → List A → List A
  filter p [] = []
  filter p (x ∷ xs) = let rest = filter p xs in if p x then x ∷ rest else rest

  pub All-filter {κ} :
      (P : A → Type κ) (p : A → Bool) (xs : List A) → All P xs → All P (filter p xs)
  unfolding filter
  All-filter P p [] h = tt
  All-filter P p (x ∷ xs) h = elim (Bool-cases (p x)) [
    | inl kept ↦ rw kept (h.0, All-filter P p xs h.1)
    | inr gone ↦ rw gone (All-filter P p xs h.1)
  ]

  pub count-filter : (q p : A → Bool) (xs : List A) → count q (filter p xs) ≤ count q xs
  unfolding filter count
  count-filter q p [] = omega arith
  count-filter q p (x ∷ xs) = ground (arith, count-filter q p xs)

  -- `ORDER BY`, by the sort keys of two columns.
  pub insert_by : (A → ℕ) → (A → ℕ) → A → List A → List A
  insert_by major minor x [] = x ∷ []
  insert_by major minor x (y ∷ ys) =
      let rest = insert_by major minor x ys in
      if ltb (major x) (major y) || (major x == major y && leb (minor x) (minor y))
      then x ∷ y ∷ ys
      else y ∷ rest

  pub sort_by : (A → ℕ) → (A → ℕ) → List A → List A
  unfolding insert_by
  sort_by major minor [] = []
  sort_by major minor (x ∷ xs) = insert_by major minor x (sort_by major minor xs)

  -- `SELECT ... WHERE p ORDER BY major, minor LIMIT n`
  unfoldable pub select : (A → Bool) → (A → ℕ) → (A → ℕ) → ℕ → List A → List A
  unfolding filter sort_by
  select p major minor n xs = take n (sort_by major minor (filter p xs))

  -- The later of a row and a best one, by `ORDER BY major DESC, minor DESC`.
  abbrev pub later_of : (A → ℕ) → (A → ℕ) → A → Option A → A
  later_of major minor x none = x
  later_of major minor x (some y) =
      if ltb (major x) (major y) || (major x == major y && ltb (minor x) (minor y)) then y else x

  -- `SELECT ... WHERE p ORDER BY major DESC, minor DESC LIMIT 1`
  unfoldable pub latest : (A → Bool) → (A → ℕ) → (A → ℕ) → List A → Option A
  latest p major minor [] = none
  latest p major minor (x ∷ xs) =
      let rest = latest p major minor xs in if p x then some (later_of major minor x rest) else rest

  pub later_of-cases :
      (major minor : A → ℕ) (x : A) (o : Option A)
      → (later_of major minor x o ≡ x) ⊎ (o ≡ some (later_of major minor x o))
  later_of-cases major minor x none = inl refl
  later_of-cases major minor x (some y) =
      elim (Bool-cases
        (ltb (major x) (major y) || (major x == major y && ltb (minor x) (minor y)))) [
          | inl later ↦ rw later (inr refl)
          | inr sooner ↦ rw sooner (inl refl)
        ]

  pub latest-cases :
      (p : A → Bool) (major minor : A → ℕ) (y : A) (ys : List A) (x : A)
      → latest p major minor (y ∷ ys) ≡ some x
      → ((p y ≡ true) × (y ≡ x)) ⊎ (latest p major minor ys ≡ some x)
  unfolding latest
  latest-cases p major minor y ys x h = elim (Bool-cases (p y)) [
    | inl kept ↦ elim (later_of-cases major minor y (latest p major minor ys)) [
      | inl head ↦ inl (kept, ground (arith, h))
      | inr tail ↦ inr (ground (arith, h))
    ]
    | inr gone ↦ inr (rw gone at h)
  ]

  pub latest-passes :
      (p : A → Bool) (major minor : A → ℕ) (xs : List A) (x : A)
      → latest p major minor xs ≡ some x
      → p x ≡ true
  unfolding latest
  latest-passes p major minor [] x h = cc
  latest-passes p major minor (y ∷ ys) x h = elim (latest-cases p major minor y ys x h) [
    | inl (kept, same) ↦ rw (← same) kept
    | inr rest ↦ latest-passes p major minor ys x rest
  ]

module _ {ℓ κ} {A : Type ℓ} {K : Type κ} ⦃e : Eq K⦄ (key : A → K) where
  -- The latest row that passes a test is the row of its key.
  pub latest-find :
      (p : A → Bool) (major minor : A → ℕ) (xs : List A) (x : A)
      → Distinct key xs
      → latest p major minor xs ≡ some x
      → find key (key x) xs ≡ some x
  unfolding latest find
  latest-find p major minor [] x d h = cc
  latest-find p major minor (y ∷ ys) x d h = elim (latest-cases p major minor y ys x h) [
    | inl (kept, same) ↦ ground (arith, e.beq_iff (key y) (key x))
    | inr rest ↦ ground (arith, e.beq_iff (key y) (key x), latest-find p major minor ys x d.1 rest)
  ]

  unfoldable pub has_key : K → List A → Bool
  has_key k [] = false
  has_key k (x ∷ xs) = let rest = has_key k xs in key x == k || rest

  has_key-take : (k : K) (n : ℕ) (xs : List A) → has_key k (take n xs) ≡ true → has_key k xs ≡ true
  unfolding has_key
  has_key-take k zero xs h = cc
  has_key-take k (suc n) [] h = cc
  has_key-take k (suc n) (x ∷ xs) h = ground (arith, has_key-take k n xs)

  has_key-insert_by :
      (k : K) (major minor : A → ℕ) (x : A) (xs : List A)
      → has_key k (insert_by major minor x xs) ≡ (key x == k || has_key k xs)
  unfolding has_key insert_by
  has_key-insert_by k major minor x [] = refl
  has_key-insert_by k major minor x (y ∷ ys) = ground (arith, has_key-insert_by k major minor x ys)

  has_key-sort_by :
      (k : K) (major minor : A → ℕ) (xs : List A)
      → has_key k (sort_by major minor xs) ≡ has_key k xs
  unfolding has_key sort_by
  has_key-sort_by k major minor [] = refl
  has_key-sort_by k major minor (x ∷ xs) = ground (
    arith,
    has_key-insert_by k major minor x (sort_by major minor xs),
    has_key-sort_by k major minor xs,
  )

  has_key-filter-none :
      (k : K) (p : A → Bool) (xs : List A) → find key k xs ≡ none → has_key k (filter p xs) ≡ false
  unfolding has_key filter find
  has_key-filter-none k p [] h = refl
  has_key-filter-none k p (x ∷ xs) h = ground (arith, has_key-filter-none k p xs)

  -- The row of a selected key passed the test.
  has_key-filter :
      (k : K) (p : A → Bool) (xs : List A) (x : A)
      → Distinct key xs
      → find key k xs ≡ some x
      → has_key k (filter p xs) ≡ true
      → p x ≡ true
  unfolding has_key filter find
  has_key-filter k p [] x d found h = cc
  has_key-filter k p (y ∷ ys) x d found h = elim (Bool-cases (key y == k)) [
    | inl same ↦
        let eq = (e.beq_iff (key y) k).0 same in
        ground (arith, has_key-filter-none k p ys (rw (← eq) d.0))
    | inr other ↦ ground (arith, has_key-filter k p ys x d.1)
  ]

  -- A row that `ORDER BY` and `LIMIT` select by its key passed the test.
  pub select-passes :
      (k : K) (p : A → Bool) (major minor : A → ℕ) (n : ℕ) (xs : List A) (x : A)
      → Distinct key xs
      → find key k xs ≡ some x
      → has_key k (select p major minor n xs) ≡ true
      → p x ≡ true
  unfolding select
  select-passes k p major minor n xs x d found h = has_key-filter k p xs x d found (
      rw (← has_key-sort_by k major minor (filter p xs))
        (has_key-take k n (sort_by major minor (filter p xs)) h))

  has_key-filter-insert_by :
      (k : K) (p : A → Bool) (major minor : A → ℕ) (x : A) (xs : List A)
      → has_key k (filter p (insert_by major minor x xs)) ≡ has_key k (filter p (x ∷ xs))
  unfolding has_key filter insert_by
  has_key-filter-insert_by k p major minor x [] = refl
  has_key-filter-insert_by k p major minor x (y ∷ ys) =
      ground (arith, has_key-filter-insert_by k p major minor x ys)

  has_key-filter-sort_by :
      (k : K) (p : A → Bool) (major minor : A → ℕ) (xs : List A)
      → has_key k (filter p (sort_by major minor xs)) ≡ has_key k (filter p xs)
  unfolding has_key filter sort_by
  has_key-filter-sort_by k p major minor [] = refl
  has_key-filter-sort_by k p major minor (x ∷ xs) = ground (
    arith,
    has_key-filter-insert_by k p major minor x (sort_by major minor xs),
    has_key-filter-sort_by k p major minor xs,
  )

  -- The same, where the rows are sorted by two further columns first.
  pub select_sorted-passes :
      (k : K) (p : A → Bool) (major minor first second : A → ℕ) (n : ℕ) (xs : List A) (x : A)
      → Distinct key xs
      → find key k xs ≡ some x
      → has_key k (select p major minor n (sort_by first second xs)) ≡ true
      → p x ≡ true
  unfolding select
  select_sorted-passes k p major minor first second n xs x d found h =
      has_key-filter k p xs x d found (
        rw (← has_key-filter-sort_by k p first second xs) (
          rw (← has_key-sort_by k major minor (filter p (sort_by first second xs)))
            (has_key-take k n (sort_by major minor (filter p (sort_by first second xs))) h)))

  -- A selected row is a row of the table.
  pub select-found :
      (k : K) (p : A → Bool) (major minor : A → ℕ) (n : ℕ) (xs : List A)
      → has_key k (select p major minor n xs) ≡ true
      → (x : A) × (find key k xs ≡ some x)
  unfolding select
  select-found k p major minor n xs h = elim (Option-cases (find key k xs)) [
    | inl missing ↦ cc (
      has_key-filter-none k p xs missing,
      has_key-sort_by k major minor (filter p xs),
      has_key-take k n (sort_by major minor (filter p xs)) h,
    )
    | inr found ↦ found
  ]

  unfoldable pub update_in : List A → (A → A) → List A → List A
  unfolding has_key
  update_in chosen f [] = []
  update_in chosen f (x ∷ xs) = (if has_key (key x) chosen then f x else x) ∷ update_in chosen f xs

  unfoldable pub delete_in : List A → List A → List A
  unfolding has_key filter
  delete_in chosen xs = filter (λ x. not (has_key (key x) chosen)) xs

  pub find-update_in :
      (k : K) (chosen : List A) (f : A → A) (xs : List A)
      → ((x : A) → key (f x) ≡ key x)
      → find key k (update_in chosen f xs)
        ≡ Option.map (λ x. if has_key k chosen then f x else x) (find key k xs)
  unfolding find update_in
  find-update_in k chosen f [] h = refl
  find-update_in k chosen f (x ∷ xs) h = elim (Bool-cases (key x == k)) [
    | inl same ↦
        let eq = (e.beq_iff (key x) k).0 same in
        ground (arith, h x, e.beq_iff (key (f x)) k, find-update_in k chosen f xs h)
    | inr other ↦
        ground
          (arith, h x, e.beq_iff (key x) k, e.beq_iff (key (f x)) k, find-update_in k chosen f xs h)
  ]

  find-delete_in_chosen :
      (k : K) (chosen xs : List A)
      → has_key k chosen ≡ true
      → find key k (delete_in chosen xs) ≡ none
  unfolding find delete_in filter
  find-delete_in_chosen k chosen [] h = refl
  find-delete_in_chosen k chosen (y ∷ ys) h =
      ground (arith, e.beq_iff (key y) k, find-delete_in_chosen k chosen ys h)

  pub find-delete_in :
      (k : K) (chosen xs : List A) (x : A)
      → find key k (delete_in chosen xs) ≡ some x
      → find key k xs ≡ some x
  unfolding find delete_in filter
  find-delete_in k chosen [] x h = h
  find-delete_in k chosen (y ∷ ys) x h = elim (Bool-cases (key y == k)) [
    | inl same ↦
        let eq = (e.beq_iff (key y) k).0 same in ground (arith, find-delete_in_chosen k chosen ys)
    | inr other ↦ ground (arith, find-delete_in k chosen ys x)
  ]

  pub find-filter-none :
      (k : K) (p : A → Bool) (xs : List A) → find key k xs ≡ none → find key k (filter p xs) ≡ none
  unfolding find filter
  find-filter-none k p [] h = refl
  find-filter-none k p (y ∷ ys) h = ground (arith, find-filter-none k p ys)

  pub Distinct-filter : (p : A → Bool) (xs : List A) → Distinct key xs → Distinct key (filter p xs)
  unfolding filter
  Distinct-filter p [] h = tt
  Distinct-filter p (y ∷ ys) h = elim (Bool-cases (p y)) [
    | inl kept ↦ rw kept (find-filter-none (key y) p ys h.0, Distinct-filter p ys h.1)
    | inr gone ↦ rw gone (Distinct-filter p ys h.1)
  ]

  pub Distinct-update_in :
      (chosen : List A) (f : A → A) (xs : List A)
      → ((x : A) → key (f x) ≡ key x)
      → Distinct key xs
      → Distinct key (update_in chosen f xs)
  unfolding update_in
  Distinct-update_in chosen f [] h d = tt
  Distinct-update_in chosen f (y ∷ ys) h d = elim (Bool-cases (has_key (key y) chosen)) [
    | inl hit ↦ rw hit (
      rw (h y, find-update_in (key y) chosen f ys h, d.0) refl,
      Distinct-update_in chosen f ys h d.1,
    )
    | inr miss ↦
        rw miss (
          rw (find-update_in (key y) chosen f ys h, d.0) refl,
          Distinct-update_in chosen f ys h d.1,
        )
  ]
