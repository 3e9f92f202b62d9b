-- ===== src/Sqlite.antt =====
-- src/infrastructure/sqlite: what a call on the database may throw, and a transaction. A function that
-- changes the database returns the new one with its result; if it throws, the old one stays, which is
-- what `transaction` of src/infrastructure/sqlite/database.ts does with ROLLBACK.
use codevo_runner.Prelude.{◌≡◌, refl, Bool, true, false, arith}
use codevo_runner.Contracts.{ErrorCode, Result, ok, err}

-- A `RunnerError`, or an error of the database or of the language.
pub data Failure : Type 0 where
  runner : ErrorCode → Failure
  other : Failure

pub data Outcome {ℓ} (A : Type ℓ) : Type ℓ where
  done : A → Outcome A
  failed : Failure → Outcome A

infixl 5 ◌>>=◌
abbrev pub ◌>>=◌ {ℓ κ} : {A : Type ℓ} {B : Type κ} → Outcome A → (A → Outcome B) → Outcome B
failed e >>= f = failed e
done a >>= f = f a

-- `throw new RunnerError(code)`.
abbrev pub refuse {ℓ} : {A : Type ℓ} → ErrorCode → Outcome A
refuse e = failed (runner e)

-- `if (!test) throw new RunnerError(code)`.
abbrev pub require : Bool → ErrorCode → Outcome (Unit {0})
require true e = done tt
require false e = refuse e

-- A parser that throws a `RunnerError`.
abbrev pub lift {ℓ} : {A : Type ℓ} → Result A → Outcome A
lift (ok a) = done a
lift (err e) = refuse e

-- The database after a transaction.
unfoldable pub after {ℓ κ} : {A : Type ℓ} {D : Type κ} → Outcome (A × D) → D → D
after (done (a, d)) old = d
after (failed e) old = old

-- What a chain that succeeds has gone through.
pub bind-done {ℓ κ} :
    {A : Type ℓ} {B : Type κ} (m : Outcome A) (f : A → Outcome B) (b : B)
    → (m >>= f) ≡ done b
    → (a : A) × (m ≡ done a) × (f a ≡ done b)
bind-done (done a) f b h = (a, refl, h)
bind-done (failed e) f b h = cc

pub require-done : (b : Bool) (e : ErrorCode) (u : Unit {0}) → require b e ≡ done u → b ≡ true
require-done true e u h = refl
require-done false e u h = cc

pub lift-done {ℓ} : {A : Type ℓ} (r : Result A) (a : A) → lift r ≡ done a → r ≡ ok a
lift-done (ok b) a h = ground (arith, h)
lift-done (err e) a h = cc
