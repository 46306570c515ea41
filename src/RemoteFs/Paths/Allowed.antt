-- ===== src/RemoteFs/Paths/Allowed.antt =====
-- A path that the backend takes stays below its root, outside the excluded paths.
use sshx.Prelude.{
  ◌≡◌, ◌⊎◌, refl, false, List, [], ◌∷◌, ◌++◌, is_empty, if◌then◌else◌, ◌==◌, bytes_eq, arith, All,
  inl, inr, ◌∙◌,
}
use sshx.Prelude.Text.{Bytes, codes, has_prefix, join, split}
use sshx.RemoteFs.Effect.{ok}
use sshx.RemoteFs.Layout.{walk, reverse_onto, components, path_clean}
use sshx.RemoteFs.Layout.Below.{IsName, names_of, never_up}
use sshx.RemoteFs.Paths.{clean_path, is_excluded, backend_clean_path}

-- The root itself, or one or more names below it with slashes between.
unfoldable pub IsBelow : Bytes → Type 0
IsBelow path =
    (path ≡ codes ".") ⊎ ((names : List Bytes) × (path ≡ join names (codes "/")) × All IsName names)

-- Neither an excluded path nor inside one.
abbrev pub IsOutside : Bytes → Bytes → Type 0
IsOutside path x = ((path == x) ≡ false) × (has_prefix path (x ++ codes "/") ≡ false)

unfoldable pub IsAllowed : List Bytes → Bytes → Type 0
unfolding IsBelow
IsAllowed excluded path = IsBelow path × All (IsOutside path) excluded

joined : Bytes → Bytes
joined value = join (components (walk false (0, []) (split b'/' value))) (codes "/")

path_clean-cases :
    (value : Bytes)
    → has_prefix value (codes "/") ≡ false
    → path_clean value ≡ (if is_empty (joined value) then codes "." else joined value)
unfolding path_clean joined
path_clean-cases value h = rw h

-- A clean path that does not go up is the root or a list of names.
clean_joined :
    (value : Bytes)
    → (joined value == codes "..") ≡ false
    → has_prefix (joined value) (codes "../") ≡ false
    → (names : List Bytes) × (joined value ≡ join names (codes "/")) × All IsName names
unfolding joined
clean_joined value n p =
    let w = walk false (0, []) (split b'/' value) in
    (components w, refl, names_of false value (never_up w.0 (reverse_onto [] w.1) n p))

clean_path-cases :
    (name clean : Bytes)
    → clean_path name ≡ ok clean
    → (clean ≡ codes ".")
      ⊎ ((clean ≡ joined name)
          × ((joined name == codes "..") ≡ false)
          × (has_prefix (joined name) (codes "../") ≡ false))
unfolding clean_path
clean_path-cases name clean h = ground (arith, path_clean-cases name)

pub clean_path-IsBelow : (name clean : Bytes) → clean_path name ≡ ok clean → IsBelow clean
unfolding IsBelow
clean_path-IsBelow name clean h = elim (clean_path-cases name clean h) [
  | inl dot ↦ inl dot
  | inr (e, n, p) ↦ let (names, j, all) = clean_joined name n p in inr (names, e ∙ j, all)
]

is_excluded-IsOutside :
    (excluded : List Bytes) (path : Bytes)
    → is_excluded excluded path ≡ false
    → All (IsOutside path) excluded
unfolding is_excluded
is_excluded-IsOutside [] path h = tt
is_excluded-IsOutside (x ∷ excluded) path h = ground (arith, is_excluded-IsOutside excluded path)

-- The backend's method gives an allowed path or refuses with "operation not permitted".
pub backend_clean_path-IsAllowed :
    (excluded : List Bytes) (name clean : Bytes)
    → backend_clean_path excluded name ≡ ok clean
    → IsAllowed excluded clean
unfolding backend_clean_path IsAllowed
backend_clean_path-IsAllowed excluded name clean h =
    ground (arith, clean_path-IsBelow name clean, is_excluded-IsOutside excluded clean)
