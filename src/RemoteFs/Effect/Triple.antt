-- ===== src/RemoteFs/Effect/Triple.antt =====
-- What holds of the state before an operation and after it, and of the value that it returns.
use sshx.Prelude.{Bool, true, false, ◌≡◌, refl, if◌then◌else◌}
use sshx.RemoteFs.{Error}
use sshx.RemoteFs.Effect.{
  Result, ok, err, Action, ◌>>=◌, ◌>>◌, done, fail, on_failure, finally, continue, after_failure,
}

abbrev pub After : {A : Type 0} → (A → Type 0) → Result A → Type 0
After Q (ok a) = Q a
After Q (err e) = Unit {0}

-- The operation preserves `P`, and a value that it returns satisfies `Q`.
pub record Triple {S A : Type 0} (P : S → Type 0) (m : Action S A) (Q : A → Type 0) : Type 0 where
  pub holds : (s : S) → P s → P (m s).0 × After Q (m s).1

-- The operation preserves `P`.
abbrev pub Any : {A : Type 0} → A → Type 0
Any a = Unit {0}

pub After-any : {A : Type 0} (r : Result A) → After Any r
After-any (ok a) = tt
After-any (err e) = tt

module _ {S : Type 0} (P : S → Type 0) where
  pub done-Triple : {A : Type 0} (Q : A → Type 0) (a : A) → Q a → Triple P (done a) Q
  done-Triple Q a q = record { holds = λ s p. (p, q) }

  pub fail-Triple : {A : Type 0} (Q : A → Type 0) (e : Error) → Triple P (fail e) Q
  fail-Triple Q e = record { holds = λ s p. (p, tt) }

  continue-Triple :
      {A B : Type 0} (Q : A → Type 0) (R : B → Type 0) (f : A → Action S B)
      → ((a : A) → Q a → Triple P (f a) R)
      → (s : S) (r : Result A) → P s
      → After Q r
      → P (continue s r f).0 × After R (continue s r f).1
  continue-Triple Q R f h s (ok a) p q = (h a q).holds s p
  continue-Triple Q R f h s (err e) p q = (p, tt)

  pub bind-Triple :
      {A B : Type 0} (Q : A → Type 0) (R : B → Type 0) {m : Action S A} {f : A → Action S B}
      → Triple P m Q
      → ((a : A) → Q a → Triple P (f a) R)
      → Triple P (m >>= f) R
  unfolding ◌>>=◌
  bind-Triple Q R {m = m} {f = f} hm hf = record {
    holds = λ s p. continue-Triple Q R f hf (m s).0 (m s).1 (hm.holds s p).0 (hm.holds s p).1;
  }

  pub then-Triple :
      {B : Type 0} (R : B → Type 0) {m : Action S (Unit {0})} {k : Action S B}
      → Triple P m Any
      → Triple P k R
      → Triple P (m >> k) R
  unfolding ◌>>◌
  then-Triple R hm hk = bind-Triple Any R hm (λ _ _. hk)

  after_failure-Triple :
      {A : Type 0} (Q : A → Type 0) (c : Action S (Unit {0}))
      → Triple P c Any
      → (s : S) (r : Result A) → P s
      → After Q r
      → P (after_failure s r c).0 × After Q (after_failure s r c).1
  after_failure-Triple Q c h s (ok a) p q = (p, q)
  after_failure-Triple Q c h s (err e) p q = ((h.holds s p).0, tt)

  pub on_failure-Triple :
      {A : Type 0} (Q : A → Type 0) {m : Action S A} {c : Action S (Unit {0})}
      → Triple P m Q
      → Triple P c Any
      → Triple P (on_failure m c) Q
  unfolding on_failure
  on_failure-Triple Q {m = m} {c = c} hm hc = record {
    holds = λ s p. after_failure-Triple Q c hc (m s).0 (m s).1 (hm.holds s p).0 (hm.holds s p).1;
  }

  pub finally-Triple :
      {A : Type 0} (Q : A → Type 0) {m : Action S A} {c : Action S (Unit {0})}
      → Triple P m Q
      → Triple P c Any
      → Triple P (finally m c) Q
  unfolding finally
  finally-Triple Q {m = m} hm hc = record {
    holds = λ s p. ((hc.holds (m s).0 (hm.holds s p).0).0, (hm.holds s p).1);
  }

  pub if-Triple :
      {A : Type 0} (Q : A → Type 0) (t : Bool) {m n : Action S A}
      → (t ≡ true → Triple P m Q)
      → (t ≡ false → Triple P n Q)
      → Triple P (if t then m else n) Q
  if-Triple Q true hm hn = hm refl
  if-Triple Q false hm hn = hn refl

-- From a state with `P`, the operation ends in a state and a result that `R` relates.
pub record Ends {S A : Type 0} (P : S → Type 0) (m : Action S A) (R : S → Result A → Type 0)
    : Type 0 where
  pub ends : (s : S) → P s → R (m s).0 (m s).1

module _ {S : Type 0} (P : S → Type 0) where
  continue-Ends :
      {A B : Type 0} (Q : A → Type 0) (R : S → Result B → Type 0) (f : A → Action S B)
      → ((s : S) (e : Error) → P s → R s (err e))
      → ((a : A) → Q a → Ends P (f a) R)
      → (s : S) (r : Result A) → P s
      → After Q r
      → R (continue s r f).0 (continue s r f).1
  continue-Ends Q R f he h s (ok a) p q = (h a q).ends s p
  continue-Ends Q R f he h s (err e) p q = he s e p

  -- The operations before the last one keep `P`.
  pub bind-Ends :
      {A B : Type 0} (Q : A → Type 0) (R : S → Result B → Type 0) {m : Action S A}
      {f : A → Action S B}
      → ((s : S) (e : Error) → P s → R s (err e))
      → Triple P m Q
      → ((a : A) → Q a → Ends P (f a) R)
      → Ends P (m >>= f) R
  unfolding ◌>>=◌
  bind-Ends Q R {m = m} {f = f} he hm hf = record {
    ends = λ s p. continue-Ends Q R f he hf (m s).0 (m s).1 (hm.holds s p).0 (hm.holds s p).1;
  }

  pub if-Ends :
      {A : Type 0} (R : S → Result A → Type 0) (t : Bool) {m n : Action S A}
      → (t ≡ true → Ends P m R)
      → (t ≡ false → Ends P n R)
      → Ends P (if t then m else n) R
  if-Ends R true hm hn = hm refl
  if-Ends R false hm hn = hn refl
