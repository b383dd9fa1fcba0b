-- ===== src/Prelude/Outcome.antt =====
-- What a call of a kernel function comes to, and the error numbers of kern/errno.h.
use Prim.Native.Nat.{ℕ}
use mathlib.Core.Path.{◌≡◌}
use mathlib.Core.Bool.{Bool, true, false}
use mathlib.Core.Option.{Option, none, some}

-- `panic` is a failed KASSERT or a call of panic(); `wild` is an access outside an array or through
-- a null pointer, of which C says nothing.
pub data Run {ℓ} (A : Type ℓ) : Type ℓ where
  ret : A → Run A
  panic : Run A
  wild : Run A

infixl 5 ◌>>=◌ ◌>>◌
abbrev pub ◌>>=◌ {ℓ κ} : {A : Type ℓ} {B : Type κ} → Run A → (A → Run B) → Run B
ret a >>= f = f a
panic >>= f = panic
wild >>= f = wild

abbrev pub ◌>>◌ {ℓ} : {B : Type ℓ} → Run (Unit {0}) → Run B → Run B
m >> k = m >>= λ _. k

-- KASSERT(b).
abbrev pub kassert : Bool → Run (Unit {0})
kassert true = ret tt
kassert false = panic

-- An array's element, or a pointer that may be null.
abbrev pub deref {ℓ} : {A : Type ℓ} → Option A → Run A
deref none = wild
deref (some a) = ret a

-- A value handed back through a pointer, or the error number that the function returns.
pub data Reply {ℓ} (A : Type ℓ) : Type ℓ where
  ok : A → Reply A
  err : ℕ → Reply A

pub ret-injective {ℓ} : {A : Type ℓ} (a b : A) → ret a ≡ ret b → a ≡ b
ret-injective a b h = cc
