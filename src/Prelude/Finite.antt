-- ===== src/Prelude/Finite.antt =====
-- A test on each number below a bound, decided by evaluation.
use Prim.Native.Nat.{ℕ, zero, suc, ◌<◌}
use mathlib.Core.Path.{◌≡◌}
use mathlib.Core.Bool.{Bool, true, ◌&&◌}
use native.Mathlib.Omega.{arith}

module _ (test : ℕ → Bool) where
  unfoldable pub passes : ℕ → Bool
  passes zero = true
  passes (suc bound) = passes bound && test bound

  pub passes-lt : (bound i : ℕ) → passes bound ≡ true → i < bound → test i ≡ true
  unfolding passes
  passes-lt zero i all below = absurd (omega arith)
  passes-lt (suc bound) i all below = ground (arith, passes-lt bound i)
