-- ===== src/Prelude/Tables.antt =====
-- Facts about the numbers below a bound, by evaluation at each of them.
use Prim.Native.Nat.{ℕ, zero, suc, ◌<◌}
use mathlib.Core.Path.{◌≡◌}
use mathlib.Core.Bool.{Bool, true, ◌&&◌}
use native.Mathlib.Omega.{arith}

-- The test on each number under `k`.
unfoldable pub each : (ℕ → Bool) → ℕ → Bool
each test zero = true
each test (suc k) = test k && each test k

pub each_lem : (test : ℕ → Bool) (m k : ℕ) → m < k → each test k ≡ true → test m ≡ true
unfolding each
each_lem test m zero less all = absurd (omega arith)
each_lem test m (suc k) less all = ground (arith, each_lem test m k)
