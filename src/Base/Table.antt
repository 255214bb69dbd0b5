-- ===== src/Base/Table.antt =====
-- Tables of the database as lists of rows with a key column, and the laws of reading and updating.
pub mod Laws
use Prim.Native.Nat.{ℕ, suc, ◌+◌, ◌≤◌}
use mathlib.Core.Path.{◌≡◌, refl}
use mathlib.Core.Bool.{Bool, true, false}
use mathlib.Core.Option.{Option, none, some}
use mathlib.Core.Option
use mathlib.Core.List.{List, [], ◌∷◌, ◌++◌}
use mathlib.Core.Logic.{inl, inr}
use native.Mathlib.Omega.{arith}
use secretmediabot.Base.Tests.{Eq, ◌==◌, if◌then◌else◌, Bool-cases}
use secretmediabot.Base.Lists.{count}

-- The first row that passes a test, as `SELECT ... LIMIT 1` and `Take` read it.
unfoldable pub find_where {ℓ} : {A : Type ℓ} → (A → Bool) → List A → Option A
find_where p [] = none
find_where p (x ∷ xs) = if p x then some x else find_where p xs

pub find_where-passes {ℓ} :
    {A : Type ℓ} (p : A → Bool) (xs : List A) (x : A) → find_where p xs ≡ some x → p x ≡ true
unfolding find_where
find_where-passes p [] x h = cc
find_where-passes p (y ∷ ys) x h = ground (arith, find_where-passes p ys x)

-- Where no row passes a test, none passes a stronger one.
pub find_where_weaker {ℓ} :
    {A : Type ℓ} (p q : A → Bool) (xs : List A)
    → ((x : A) → p x ≡ true → q x ≡ true)
    → find_where q xs ≡ none
    → find_where p xs ≡ none
unfolding find_where
find_where_weaker p q [] h n = refl
find_where_weaker p q (x ∷ xs) h n = ground (arith, h x, find_where_weaker p q xs h)

module _ {ℓ κ} {A : Type ℓ} {K : Type κ} ⦃e : Eq K⦄ (key : A → K) where
  -- A row by its primary key.
  unfoldable pub find : K → List A → Option A
  find k [] = none
  find k (x ∷ xs) = if key x == k then some x else find k xs

  -- `UPDATE ... WHERE key = k AND p`: a primary key names one row at most.
  unfoldable pub modify : K → (A → Bool) → (A → A) → List A → List A
  modify k p f [] = []
  modify k p f (x ∷ xs) = if key x == k then (if p x then f x else x) ∷ xs else x ∷ modify k p f xs

  -- The number of rows that such an update changes.
  unfoldable pub matches : K → (A → Bool) → List A → Bool
  matches k p [] = false
  matches k p (x ∷ xs) = if key x == k then p x else matches k p xs

  -- No two rows share a key.
  abbrev pub Distinct : List A → Type ℓ
  Distinct [] = Unit
  Distinct (x ∷ xs) = (find (key x) xs ≡ none) × Distinct xs
