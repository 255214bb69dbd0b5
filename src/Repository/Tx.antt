-- ===== src/Repository/Tx.antt =====
-- A database action: it fails or returns a value, beside the state that it leaves.
use secretmediabot.Base.{
  arith, Bool, true, false, Option, none, some, ◌≡◌, refl, if◌then◌else◌, Time, is_zero_time,
}
use secretmediabot.Repository.Errors.{Error, Result, ok, err}
use secretmediabot.Repository.Rows.{Db}

abbrev pub Tx : Type 0 → Type 0
Tx A = Db → Result A × Db

abbrev pub pure : {A : Type 0} → A → Tx A
pure a db = (ok a, db)

abbrev pub raise : {A : Type 0} → Error → Tx A
raise e db = (err e, db)

abbrev pub continue : {A B : Type 0} → Result A → (A → Tx B) → Tx B
continue (ok a) f db = f a db
continue (err e) f db = (err e, db)

infixl 5 ◌>>=◌ ◌>>◌
abbrev pub ◌>>=◌ : {A B : Type 0} → Tx A → (A → Tx B) → Tx B
◌>>=◌ m f db = let (r, db') = m db in continue r f db'

abbrev pub ◌>>◌ : {B : Type 0} → Tx (Unit {0}) → Tx B → Tx B
m >> k = m >>= λ _. k

-- `return ErrX` unless the condition holds.
abbrev pub require : Bool → Error → Tx (Unit {0})
require true e = pure tt
require false e = raise e

-- `Take`, whose missing record is translated to `ErrNotFound`.
abbrev pub take : {A : Type 0} → (Db → Option A) → Tx A
take read db = elim (read db) [ none ↦ (err Error.not_found, db) | some a ↦ (ok a, db) ]

-- A transaction that returns an error is rolled back.
abbrev pub roll_back : {A : Type 0} → Db → Result A × Db → Result A × Db
roll_back db (ok a, db') = (ok a, db')
roll_back db (err e, db') = (err e, db)

abbrev pub transaction : {A : Type 0} → Tx A → Tx A
transaction m db = roll_back db (m db)

-- `nowOr`, with the reading of the clock as an argument.
abbrev pub now_or : Time → Time → Time
now_or clock value = if is_zero_time value then clock else value

roll_back_keeps :
    {A : Type 0} (P : Db → Type 0) (db : Db) (r : Result A × Db)
    → P db
    → P r.1
    → P (roll_back db r).1
roll_back_keeps P db (ok a, d) before after = after
roll_back_keeps P db (err e, d) before after = before

-- What holds before a transaction and after its body holds after it, rolled back or not.
pub transaction_keeps :
    {A : Type 0} (P : Db → Type 0) (m : Tx A) (db : Db) → P db → P (m db).1 → P (transaction m db).1
transaction_keeps P m db = roll_back_keeps P db (m db)

continue_keeps :
    {A B : Type 0} (P : Db → Type 0) (r : Result A) (f : A → Tx B) (db : Db)
    → P db
    → ((a : A) → r ≡ ok a → P (f a db).1)
    → P (continue r f db).1
continue_keeps P (ok a) f db before after = after a refl
continue_keeps P (err e) f db before after = before

-- What holds after a first action, and after a second one that starts from there.
pub bind_keeps :
    {A B : Type 0} (P : Db → Type 0) (m : Tx A) (f : A → Tx B) (db : Db)
    → P (m db).1
    → ((a : A) → (m db).0 ≡ ok a → P (f a (m db).1).1)
    → P ((m >>= f) db).1
bind_keeps P m f db = continue_keeps P (m db).0 f (m db).1

-- A value computed from the result leaves the state as it is.
pub pure_keeps :
    {A B : Type 0} (P : Db → Type 0) (m : Tx A) (g : A → B) (db : Db)
    → P (m db).1
    → P ((m >>= λ a. pure (g a)) db).1
pure_keeps P m g db h = bind_keeps P m (λ a. pure (g a)) db h (λ a _. h)

pub take_state : {A : Type 0} (read : Db → Option A) (db : Db) → (take read db).1 ≡ db
take_state read db = ground arith

pub take_found :
    {A : Type 0} (read : Db → Option A) (db : Db) (a : A)
    → (take read db).0 ≡ ok a
    → read db ≡ some a
take_found read db a h = ground arith

pub if_keeps :
    {A : Type 0} (P : Db → Type 0) (b : Bool) (m n : Tx A) (db : Db)
    → (b ≡ true → P (m db).1)
    → (b ≡ false → P (n db).1)
    → P ((if b then m else n) db).1
if_keeps P true m n db hm hn = hm refl
if_keeps P false m n db hm hn = hn refl

pub take_keeps :
    {A B : Type 0} (P : Db → Type 0) (read : Db → Option A) (f : A → Tx B) (db : Db)
    → P db
    → ((a : A) → read db ≡ some a → P (f a db).1)
    → P ((take read >>= f) db).1
take_keeps P read f db h k =
    bind_keeps P (take read) f db (rw (take_state read db) h)
      (λ a found. rw (take_state read db) (k a (take_found read db a found)))

pub require_keeps :
    {B : Type 0} (P : Db → Type 0) (b : Bool) (e : Error) (m : Tx B) (db : Db)
    → P db
    → (b ≡ true → P (m db).1)
    → P ((require b e >>= λ _. m) db).1
require_keeps P true e m db h k = k refl
require_keeps P false e m db h k = h

pub require_state : (b : Bool) (e : Error) (db : Db) → (require b e db).1 ≡ db
require_state true e db = refl
require_state false e db = refl

-- An action that keeps what holds of the database.
abbrev pub Keeps : {A : Type 0} → (Db → Type 0) → Tx A → Type 0
Keeps P m = (db : Db) → P db → P (m db).1

pub bind-Keeps :
    {A B : Type 0} (P : Db → Type 0) (m : Tx A) (f : A → Tx B)
    → Keeps P m
    → ((a : A) → Keeps P (f a))
    → Keeps P (m >>= f)
bind-Keeps P m f hm hf db h = bind_keeps P m f db (hm db h) (λ a _. hf a (m db).1 (hm db h))

pub then-Keeps :
    {B : Type 0} (P : Db → Type 0) (m : Tx (Unit {0})) (n : Tx B)
    → Keeps P m
    → Keeps P n
    → Keeps P (m >> n)
then-Keeps P m n hm hn = bind-Keeps P m (λ _. n) hm (λ _. hn)

pub transaction-Keeps :
    {A : Type 0} (P : Db → Type 0) (m : Tx A) → Keeps P m → Keeps P (transaction m)
transaction-Keeps P m hm db h = transaction_keeps P m db h (hm db h)

pub if-Keeps :
    {A : Type 0} (P : Db → Type 0) (b : Bool) (m n : Tx A)
    → Keeps P m
    → Keeps P n
    → Keeps P (if b then m else n)
if-Keeps P true m n hm hn = hm
if-Keeps P false m n hm hn = hn

pub require-Keeps : (P : Db → Type 0) (b : Bool) (e : Error) → Keeps P (require b e)
require-Keeps P true e db h = h
require-Keeps P false e db h = h

pub take-Keeps : {A : Type 0} (P : Db → Type 0) (read : Db → Option A) → Keeps P (take read)
take-Keeps P read db h = rw (take_state read db) h
