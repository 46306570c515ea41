-- ===== src/Prelude/Map.antt =====
-- Go maps as association lists, each key once. Go iterates over a map in no fixed order: what the
-- program does in a loop over a map is stated for every order, or the result is sorted.
use Prim.Native.Nat.{ℕ, ◌+◌, ◌≤◌}
use mathlib.Core.Path.{◌≡◌, refl}
use mathlib.Core.Bool.{Bool, true, false}
use mathlib.Core.List.{List, [], ◌∷◌}
use mathlib.Core.Option.{Option, none, some}
use native.Mathlib.Omega.{arith}
use sshx.Prelude.Tests.{if◌then◌else◌}
use sshx.Prelude.Lists.{length}
use sshx.Prelude.Eq.{Eq, ◌==◌, eq_iff, eq_refl, contains}

abbrev pub Map {ℓ κ} : Type ℓ → Type κ → Type (ℓ ⊔ κ)
Map K V = List (K × V)

abbrev pub has {ℓ} : {V : Type ℓ} → Option V → Bool
has none = false
has (some _) = true

module _ {ℓ κ} {K : Type ℓ} {V : Type κ} where
  abbrev pub keys : Map K V → List K
  keys [] = []
  keys ((k, v) ∷ m) = k ∷ keys m

  abbrev pub values : Map K V → List V
  values [] = []
  values ((k, v) ∷ m) = v ∷ values m

  -- How many entries have a value that passes the test.
  abbrev pub count : (V → Bool) → Map K V → ℕ
  count p [] = 0
  count p ((k, v) ∷ m) = (if p v then 1 else 0) + count p m

module _ {ℓ κ} {K : Type ℓ} {V : Type κ} ⦃e : Eq K⦄ where
  unfoldable pub lookup : K → Map K V → Option V
  lookup k [] = none
  lookup k ((j, v) ∷ m) = if j == k then some v else lookup k m

  unfoldable pub delete : K → Map K V → Map K V
  delete k [] = []
  delete k ((j, v) ∷ m) = let rest = delete k m in if j == k then rest else (j, v) ∷ rest

  unfoldable pub insert : K → V → Map K V → Map K V
  unfolding delete
  insert k v m = (k, v) ∷ delete k m

  pub lookup-delete :
      (k j : K) (m : Map K V) → lookup j (delete k m) ≡ (if k == j then none else lookup j m)
  unfolding lookup delete
  lookup-delete k j [] = ground arith
  lookup-delete k j ((i, v) ∷ m) =
      ground (arith, lookup-delete k j m, eq_iff i k, eq_iff i j, eq_iff k j)

  pub lookup-insert :
      (k j : K) (v : V) (m : Map K V)
      → lookup j (insert k v m) ≡ (if k == j then some v else lookup j m)
  unfolding insert
  lookup-insert k j v m = unfold lookup in ground (arith, lookup-delete k j m)

  pub delete_absent : (k : K) (m : Map K V) → lookup k m ≡ none → delete k m ≡ m
  unfolding lookup delete
  delete_absent k [] h = refl
  delete_absent k ((j, v) ∷ m) h = ground (arith, delete_absent k m)

  -- Each key stands once.
  abbrev pub IsMap : Map K V → Type κ
  IsMap [] = Unit
  IsMap ((k, v) ∷ m) = (lookup k m ≡ none) × IsMap m

  pub delete-IsMap : (k : K) (m : Map K V) → IsMap m → IsMap (delete k m)
  unfolding delete
  delete-IsMap k [] h = tt
  delete-IsMap k ((j, v) ∷ m) h = ground (arith, delete-IsMap k m h.1, lookup-delete k j m)

  pub insert-IsMap : (k : K) (v : V) (m : Map K V) → IsMap m → IsMap (insert k v m)
  unfolding insert
  insert-IsMap k v m h = ground (arith, delete-IsMap k m h, lookup-delete k k m, eq_refl k)

  -- An entry taken out is one less to count.
  pub count-delete :
      (p : V → Bool) (k : K) (v : V) (m : Map K V)
      → IsMap m
      → lookup k m ≡ some v
      → count p m ≡ (if p v then 1 else 0) + count p (delete k m)
  unfolding lookup delete
  count-delete p k v [] h l = cc
  count-delete p k v ((j, w) ∷ m) h l =
      ground (arith, count-delete p k v m h.1, eq_iff j k, delete_absent k m)

  pub length-delete_le : (k : K) (m : Map K V) → length (delete k m) ≤ length m
  unfolding delete
  length-delete_le k [] = omega arith
  length-delete_le k ((j, v) ∷ m) = ground (arith, length-delete_le k m)

  pub length-delete_lt :
      (k : K) (m : Map K V) → has (lookup k m) ≡ true → length (delete k m) + 1 ≤ length m
  unfolding delete lookup
  length-delete_lt k [] h = cc
  length-delete_lt k ((j, v) ∷ m) h = ground (arith, length-delete_lt k m, length-delete_le k m)

  pub length-insert_le : (k : K) (v : V) (m : Map K V) → length (insert k v m) ≤ length m + 1
  unfolding insert
  length-insert_le k v m = omega (arith, length-delete_le k m)

  -- An entry put in the place of another.
  pub length-insert_held :
      (k : K) (v : V) (m : Map K V) → has (lookup k m) ≡ true → length (insert k v m) ≤ length m
  unfolding insert
  length-insert_held k v m h = omega (arith, length-delete_lt k m h)

  pub contains-keys : (k : K) (m : Map K V) → contains (keys m) k ≡ has (lookup k m)
  unfolding contains lookup
  contains-keys k [] = refl
  contains-keys k ((j, v) ∷ m) = ground (arith, contains-keys k m)
