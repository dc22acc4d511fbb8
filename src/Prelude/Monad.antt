-- ===== src/Prelude/Monad.antt =====
-- What a call in the kernel can do: return, stop in `panic_spin` on a failed ASSERT, or use up the
-- fuel that its loop was given.
use mathlib.Core.Path.{◌≡◌, refl, ap}
use mathlib.Core.Bool.{Bool, true, false}
use native.Mathlib.Omega.{arith}

pub data Run {ℓ} (A : Type ℓ) : Type ℓ where
  ok : A → Run A
  panic : Run A
  out_of_fuel : Run A

infixl 5 ◌>>=◌ ◌>>◌
abbrev pub ◌>>=◌ {ℓ κ} :
    {Value : Type ℓ} {Result : Type κ} → (call : Run Value) (rest : Value → Run Result) → Run Result
panic >>= rest = panic
out_of_fuel >>= rest = out_of_fuel
ok value >>= rest = rest value

abbrev pub ◌>>◌ {ℓ} : {B : Type ℓ} → Run (Unit {0}) → Run B → Run B
m >> k = m >>= λ _. k

-- ASSERT(condition)
abbrev pub assert : Bool → Run (Unit {0})
assert true = ok tt
assert false = panic

result_or {ℓ} : {A : Type ℓ} → A → Run A → A
result_or d (ok a) = a
result_or d panic = d
result_or d out_of_fuel = d

-- The value of a call that returns is determined.
pub ok-injective {ℓ} : {A : Type ℓ} {a b : A} → ok a ≡ ok b → a ≡ b
unfolding result_or
ok-injective {a = a} e = ap (result_or a) e

-- Where a sequence of calls returns, its first call does.
pub bind_ok {ℓ κ} :
    {A : Type ℓ} {B : Type κ} (r : Run A) {f : A → Run B} {b : B}
    → (r >>= f) ≡ ok b
    → (a : A) × (r ≡ ok a) × (f a ≡ ok b)
bind_ok (ok a) e = (a, refl, e)
bind_ok panic e = absurd (ground arith)
bind_ok out_of_fuel e = absurd (ground arith)

-- Where what follows an ASSERT is reached, its condition holds.
pub assert_ok {ℓ} :
    {B : Type ℓ} (c : Bool) {k : Run B} {b : B} → (assert c >> k) ≡ ok b → (c ≡ true) × (k ≡ ok b)
assert_ok true e = (refl, e)
assert_ok false e = absurd (ground arith)
