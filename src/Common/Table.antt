-- ===== src/Common/Table.antt =====
-- Finite tables: a test that is true of each number below a bound.
use Prim.Native.Nat.{ℕ, zero, suc, ◌<◌}
use native.Mathlib.Omega.{arith}
use mathlib.Core.Path.{◌≡◌}
use mathlib.Core.Bool.{Bool, true, ◌&&◌}

unfoldable pub table : ℕ → (ℕ → Bool) → Bool
table zero test = true
table (suc n) test = test n && table n test

pub table-lt : (n : ℕ) (test : ℕ → Bool) (x : ℕ) → table n test ≡ true → x < n → test x ≡ true
unfolding table
table-lt zero test x h lt = absurd (omega arith)
table-lt (suc n) test x h lt = ground (arith, table-lt n test x)
