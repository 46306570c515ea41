-- ===== src/Prelude/Pigeonhole.antt =====
-- Among `n` different values, one is missing from a list of fewer than `n`.
use Prim.Native.Nat.{ℕ, zero, suc, ◌+◌, ◌≤◌, ◌<◌}
use mathlib.Core.Path.{◌≡◌}
use mathlib.Core.Bool.{true, false}
use mathlib.Core.List.{List, [], ◌∷◌}
use native.Mathlib.Omega.{arith}
use sshx.Prelude.Tests.{if◌then◌else◌}
use sshx.Prelude.Lists.{length}
use sshx.Prelude.Eq.{Eq, ◌==◌, eq_iff, contains}

module _ {ℓ} {A : Type ℓ} ⦃e : Eq A⦄ where
  without : A → List A → List A
  without a [] = []
  without a (x ∷ xs) = let rest = without a xs in if x == a then rest else x ∷ rest

  length-without_le : (a : A) (xs : List A) → length (without a xs) ≤ length xs
  unfolding without
  length-without_le a [] = omega arith
  length-without_le a (x ∷ xs) = ground (arith, length-without_le a xs)

  length-without : (a : A) (xs : List A) → contains xs a ≡ true → length (without a xs) < length xs
  unfolding without contains
  length-without a [] h = ground arith
  length-without a (x ∷ xs) h = ground (arith, length-without a xs, length-without_le a xs)

  contains-without :
      (a b : A) (xs : List A)
      → (a == b) ≡ false
      → contains xs b ≡ true
      → contains (without a xs) b ≡ true
  unfolding without contains
  contains-without a b [] n h = ground arith
  contains-without a b (x ∷ xs) n h =
      ground (arith, contains-without a b xs, eq_iff x a, eq_iff x b, eq_iff a b)

  pub pigeonhole :
      (f : ℕ → A) (n s : ℕ) (xs : List A)
      → ((i j : ℕ) → i < j → j < s + n → (f i == f j) ≡ false)
      → ((i : ℕ) → s ≤ i → i < s + n → contains xs (f i) ≡ true)
      → n ≤ length xs
  pigeonhole f zero s xs inj full = omega arith
  pigeonhole f (suc n) s xs inj full = omega (
    arith,
    length-without (f s) xs (full s (omega arith) (omega arith)),
    pigeonhole f n (suc s) (without (f s) xs) (λ i j lt below. inj i j lt (omega arith))
        (λ i above below.
          contains-without (f s) (f i) xs (inj s i (omega arith) (omega arith))
            (full i (omega arith) (omega arith))),
  )
