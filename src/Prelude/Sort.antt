-- ===== src/Prelude/Sort.antt =====
-- Sorting by a number: package `sort` of Go. The order of equal keys is that of the input here.
use Prim.Native.Nat.{ℕ, ◌≤◌}
use mathlib.Core.Path.{◌≡◌, refl, ap, ◌∙◌}
use mathlib.Core.Bool.{◌||◌}
use mathlib.Core.List.{List, [], ◌∷◌}
use native.Mathlib.Omega.{arith}
use sshx.Prelude.Tests.{leb, if◌then◌else◌}
use mathlib.Core.Option.{Option, none, some}
use sshx.Prelude.Eq.{Eq, ◌==◌, nat_eq, contains}

module _ {ℓ} {A : Type ℓ} (key : A → ℕ) where
  unfoldable pub insert_by : A → List A → List A
  insert_by a [] = a ∷ []
  insert_by a (x ∷ xs) = if leb (key a) (key x) then a ∷ x ∷ xs else x ∷ insert_by a xs

  unfoldable pub sort_by : List A → List A
  unfolding insert_by
  sort_by [] = []
  sort_by (x ∷ xs) = insert_by x (sort_by xs)

  -- In order from a lower bound on.
  abbrev pub IsSortedFrom : ℕ → List A → Type 0
  IsSortedFrom lo [] = Unit
  IsSortedFrom lo (x ∷ xs) = (lo ≤ key x) × IsSortedFrom (key x) xs

  insert_by-IsSortedFrom :
      (a : A) (xs : List A) (lo : ℕ)
      → lo ≤ key a
      → IsSortedFrom lo xs
      → IsSortedFrom lo (insert_by a xs)
  unfolding insert_by
  insert_by-IsSortedFrom a [] lo h s = ground arith
  insert_by-IsSortedFrom a (x ∷ xs) lo h s = ground (arith, insert_by-IsSortedFrom a xs (key x))

  pub sort_by-IsSortedFrom : (xs : List A) → IsSortedFrom 0 (sort_by xs)
  unfolding sort_by
  sort_by-IsSortedFrom [] = tt
  sort_by-IsSortedFrom (x ∷ xs) =
      insert_by-IsSortedFrom x (sort_by xs) 0 (omega arith) (sort_by-IsSortedFrom xs)

  -- The first item with a key.
  abbrev pub find_by : ℕ → List A → Option A
  find_by k [] = none
  find_by k (x ∷ xs) = if key x == k then some x else find_by k xs

  find_by-insert_by :
      (k : ℕ) (a : A) (xs : List A) → find_by k (insert_by a xs) ≡ find_by k (a ∷ xs)
  unfolding insert_by
  find_by-insert_by k a [] = refl
  find_by-insert_by k a (x ∷ xs) = ground (arith, find_by-insert_by k a xs)

  -- Sorting keeps what is found under each key.
  pub find_by-sort_by : (k : ℕ) (xs : List A) → find_by k (sort_by xs) ≡ find_by k xs
  unfolding sort_by
  find_by-sort_by k [] = refl
  find_by-sort_by k (x ∷ xs) =
      find_by-insert_by k x (sort_by xs)
      ∙ ap (λ r. if key x == k then some x else r) (find_by-sort_by k xs)

module _ {ℓ} {A : Type ℓ} ⦃e : Eq A⦄ (key : A → ℕ) where
  contains-insert_by :
      (a b : A) (xs : List A) → contains (insert_by key a xs) b ≡ (a == b || contains xs b)
  unfolding insert_by contains
  contains-insert_by a b [] = refl
  contains-insert_by a b (x ∷ xs) = ground (arith, contains-insert_by a b xs)

  -- Sorting keeps the items.
  pub contains-sort_by : (b : A) (xs : List A) → contains (sort_by key xs) b ≡ contains xs b
  unfolding sort_by contains
  contains-sort_by b [] = refl
  contains-sort_by b (x ∷ xs) =
      contains-insert_by x b (sort_by key xs) ∙ ap (λ r. x == b || r) (contains-sort_by b xs)
