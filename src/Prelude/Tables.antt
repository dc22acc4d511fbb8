-- ===== src/Prelude/Tables.antt =====
-- Facts about all bytes and all bits of a byte, by evaluation.
use Prim.Native.Nat.{ℕ, zero, suc, ◌<◌}
use mathlib.Core.Path.{◌≡◌}
use mathlib.Core.Bool.{Bool, true, ◌&&◌}
use native.Mathlib.Omega.{arith}

unfoldable pub every : (bound : ℕ) (test : ℕ → Bool) → Bool
every zero test = true
every (suc last) test = test last && every last test

-- A test that holds of every number below the bound holds of one of them.
pub every_lem :
    (bound : ℕ) (test : ℕ → Bool) (i : ℕ) (below : i < bound)
    → every bound test ≡ true
    → test i ≡ true
unfolding every
every_lem zero test i below all = elim below [ ]
every_lem (suc last) test i below all = ground (arith, every_lem last test i)
