-- ===== src/Repository/Success.antt =====
-- What an action leaves when it succeeds.
use secretmediabot.Base.{◌≡◌, refl, arith, Bool, true, false, Option, none, some, if◌then◌else◌}
use secretmediabot.Repository.Errors.{Error, Result, ok, err}
use secretmediabot.Repository.Rows.{Db}
use secretmediabot.Repository.Tx.{Tx, pure, continue, require, take, roll_back, transaction, ◌>>=◌}

-- If the action returns a value, the property holds of the tables that it leaves.
abbrev pub Yields : {A : Type 0} → Tx A → Db → (Db → Type 0) → Type 0
Yields {A} m db P = (a : A) → (m db).0 ≡ ok a → P (m db).1

continue-Yields :
    {A B : Type 0} (P : Db → Type 0) (r : Result A) (f : A → Tx B) (db : Db)
    → ((a : A) → r ≡ ok a → Yields (f a) db P)
    → Yields (continue r f) db P
continue-Yields P (ok a) f db k b h = k a refl b h
continue-Yields P (err e) f db k b h = cc

pub bind-Yields :
    {A B : Type 0} (P : Db → Type 0) (m : Tx A) (f : A → Tx B) (db : Db)
    → ((a : A) → (m db).0 ≡ ok a → Yields (f a) (m db).1 P)
    → Yields (m >>= f) db P
bind-Yields P m f db k = continue-Yields P (m db).0 f (m db).1 k

take_at-Yields :
    {A B : Type 0} (P : Db → Type 0) (o : Option A) (f : A → Tx B) (db : Db)
    → ((a : A) → o ≡ some a → Yields (f a) db P)
    → Yields (take (λ _. o) >>= f) db P
take_at-Yields P none f db k b h = cc
take_at-Yields P (some a) f db k b h = k a refl b h

pub take-Yields :
    {A B : Type 0} (P : Db → Type 0) (read : Db → Option A) (f : A → Tx B) (db : Db)
    → ((a : A) → read db ≡ some a → Yields (f a) db P)
    → Yields (take read >>= f) db P
take-Yields P read f db k = take_at-Yields P (read db) f db k

pub require-Yields :
    {B : Type 0} (P : Db → Type 0) (b : Bool) (e : Error) (m : Tx B) (db : Db)
    → (b ≡ true → Yields m db P)
    → Yields (require b e >>= λ _. m) db P
require-Yields P true e m db k b h = k refl b h
require-Yields P false e m db k b h = cc

pub if-Yields :
    {A : Type 0} (P : Db → Type 0) (b : Bool) (m n : Tx A) (db : Db)
    → (b ≡ true → Yields m db P)
    → (b ≡ false → Yields n db P)
    → Yields (if b then m else n) db P
if-Yields P true m n db km kn = km refl
if-Yields P false m n db km kn = kn refl

roll_back-Yields :
    {A : Type 0} (P : Db → Type 0) (r : Result A × Db) (db : Db)
    → ((a : A) → r.0 ≡ ok a → P r.1)
    → (a : A) → (roll_back db r).0 ≡ ok a
    → P (roll_back db r).1
roll_back-Yields P (ok x, d) db k a h = k a h
roll_back-Yields P (err e, d) db k a h = cc

pub transaction-Yields :
    {A : Type 0} (P : Db → Type 0) (m : Tx A) (db : Db)
    → Yields m db P
    → Yields (transaction m) db P
transaction-Yields P m db = roll_back-Yields P (m db) db

-- A value that is computed after an action succeeds as the action does.
pub continue-pure-ok :
    {A B : Type 0} (r : Result A × Db) (b w : B)
    → (continue r.0 (λ _. pure b) r.1).0 ≡ ok w
    → (w ≡ b) × ((a : A) × (r.0 ≡ ok a)) × ((continue r.0 (λ _. pure b) r.1).1 ≡ r.1)
continue-pure-ok (ok a, d) b w h = (cc, (a, refl), refl)
continue-pure-ok (err x, d) b w h = absurd (ground (arith, h))
