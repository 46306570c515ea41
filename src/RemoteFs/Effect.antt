-- ===== src/RemoteFs/Effect.antt =====
-- Go functions that return a value and an error and change a state: the shape of the operations of
-- internal/remotefs.
pub mod Triple
use sshx.Prelude.{Bool, if◌then◌else◌}
use sshx.RemoteFs.{Error}

-- A value with a nil error, or the error.
pub data Result {ℓ} (A : Type ℓ) : Type ℓ where
  ok : A → Result A
  err : Error → Result A

abbrev pub Action : Type 0 → Type 0 → Type 0
Action S A = S → S × Result A

abbrev pub continue : {S A B : Type 0} → S → Result A → (A → Action S B) → S × Result B
continue s (ok a) f = f a s
continue s (err e) f = (s, err e)

-- `if err != nil { return err }` after a call.
infixl 5 ◌>>=◌ ◌>>◌
unfoldable pub ◌>>=◌ : {S A B : Type 0} → Action S A → (A → Action S B) → Action S B
◌>>=◌ m f s = let (s', r) = m s in continue s' r f

unfoldable pub ◌>>◌ : {S B : Type 0} → Action S (Unit {0}) → Action S B → Action S B
unfolding ◌>>=◌
m >> k = m >>= λ _. k

abbrev pub done : {S A : Type 0} → A → Action S A
done a s = (s, ok a)

abbrev pub fail : {S A : Type 0} → Error → Action S A
fail e s = (s, err e)

abbrev pub after_failure : {S A : Type 0} → S → Result A → Action S (Unit {0}) → S × Result A
after_failure s (ok a) cleanup = (s, ok a)
after_failure s (err e) cleanup = ((cleanup s).0, err e)

-- `if err != nil { _ = f.Close(); return err }`
unfoldable pub on_failure : {S A : Type 0} → Action S A → Action S (Unit {0}) → Action S A
on_failure m cleanup s = let (s', r) = m s in after_failure s' r cleanup

-- `defer f.Close()`, and a call whose own error is dropped.
unfoldable pub finally : {S A : Type 0} → Action S A → Action S (Unit {0}) → Action S A
finally m cleanup s = let (s', r) = m s in ((cleanup s').0, r)
