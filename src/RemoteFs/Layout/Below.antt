-- ===== src/RemoteFs/Layout/Below.antt =====
-- A mount path that is accepted stays below the session root.
use sshx.Prelude.{
  ℕ, zero, suc, ◌≡◌, ◌≢◌, ◌⊎◌, refl, Bool, true, false, some, List, [], ◌∷◌, is_empty,
  if◌then◌else◌, ◌==◌, bytes_eq, bytes_beq, nat_eq, eq_refl, arith, All, sym, ◌∙◌, Bool-cases, inl,
  inr,
}
use mathlib.Core.Bool.{false≢true}
use sshx.Prelude.Text.{Bytes, codes, has_prefix, contains_byte, join, split}
use sshx.RemoteFs.Layout.{walk, reverse_onto, go_up, components, path_clean, clean_mount_path}

-- A name of a directory: not empty, neither `.` nor `..`, and without a slash.
abbrev pub IsName : Bytes → Type 0
IsName name =
    ((name == codes "") ≡ false)
    × ((name == codes ".") ≡ false)
    × ((name == codes "..") ≡ false)
    × (contains_byte name b'/' ≡ false)

NoSlash : Bytes → Type 0
NoSlash part = contains_byte part b'/' ≡ false

-- One step of `split`.
attach : ℕ → List Bytes → List Bytes
attach c parts = elim parts [
  | [] ↦ (c ∷ []) ∷ []
  | p ∷ ps ↦ if c == b'/' then [] ∷ p ∷ ps else (c ∷ p) ∷ ps
]

split-attach : (c : ℕ) (s : Bytes) → split b'/' (c ∷ s) ≡ attach c (split b'/' s)
unfolding split attach
split-attach c s = refl

attach-NoSlash :
    (c : ℕ) (parts : List Bytes)
    → All NoSlash parts
    → is_empty parts ≡ false
    → All NoSlash (attach c parts) × (is_empty (attach c parts) ≡ false)
unfolding attach NoSlash contains_byte
attach-NoSlash c [] h e = ground arith
attach-NoSlash c (p ∷ ps) (q, h) e = ground arith

empty_part : All NoSlash (split b'/' []) × (is_empty (split b'/' []) ≡ false)
unfolding split contains_byte NoSlash
empty_part = ((refl, tt), refl)

split-NoSlash : (s : Bytes) → All NoSlash (split b'/' s) × (is_empty (split b'/' s) ≡ false)
split-NoSlash [] = empty_part
split-NoSlash (c ∷ s) =
    let (parts, some_part) = split-NoSlash s in
    rw (split-attach c s) (attach-NoSlash c (split b'/' s) parts some_part)

walk-IsName :
    (rooted : Bool) (ups : ℕ) (names parts : List Bytes)
    → All IsName names
    → All NoSlash parts
    → All IsName (walk rooted (ups, names) parts).1
unfolding walk NoSlash
walk-IsName rooted ups names [] h p = h
walk-IsName rooted ups [] (part ∷ parts) h (q, p) = ground (
  arith,
  walk-IsName rooted ups [] parts tt p,
  walk-IsName rooted (suc ups) [] parts tt p,
  walk-IsName rooted ups (part ∷ []) parts,
)
walk-IsName rooted ups (name ∷ names) (part ∷ parts) (n, h) (q, p) = ground (
  arith,
  walk-IsName rooted ups (name ∷ names) parts (n, h) p,
  walk-IsName rooted ups names parts h p,
  walk-IsName rooted ups (part ∷ name ∷ names) parts,
)

reverse_onto-IsName :
    (xs ys : List Bytes) → All IsName xs → All IsName ys → All IsName (reverse_onto ys xs)
reverse_onto-IsName [] ys hx hy = hy
reverse_onto-IsName (x ∷ xs) ys (px, hx) hy = reverse_onto-IsName xs (x ∷ ys) hx (px, hy)

-- What the walk leaves is a list of names, where it does not go up.
pub names_of :
    (rooted : Bool) (value : Bytes)
    → (walk rooted (0, []) (split b'/' value)).0 ≡ 0
    → All IsName (components (walk rooted (0, []) (split b'/' value)))
names_of rooted value h =
    let w = walk rooted (0, []) (split b'/' value) in
    rw h (
      reverse_onto-IsName w.1 []
        (walk-IsName rooted 0 [] (split b'/' value) tt (split-NoSlash value).0) tt)

-- A path that goes up begins with two dots.
goes_up :
    (ups : ℕ) (names : List Bytes)
    → (join (go_up (suc ups) names) (codes "/") == codes "..") ≡ true
      ⊎ (has_prefix (join (go_up (suc ups) names) (codes "/")) (codes "../") ≡ true)
unfolding join has_prefix bytes_beq
goes_up zero [] = inl refl
goes_up zero (name ∷ names) = inr refl
goes_up (suc ups) names = inr refl

pub never_up :
    (ups : ℕ) (names : List Bytes)
    → (join (go_up ups names) (codes "/") == codes "..") ≡ false
    → has_prefix (join (go_up ups names) (codes "/")) (codes "../") ≡ false
    → ups ≡ 0
never_up zero names n p = refl
never_up (suc ups) names n p = elim (goes_up ups names) [
  | inl up ↦ absurd (false≢true (sym n ∙ up))
  | inr up ↦ absurd (false≢true (sym p ∙ up))
]

rooted_prefix : (s : Bytes) → has_prefix (b'/' ∷ s) (codes "/") ≡ true
unfolding has_prefix
rooted_prefix s = ground arith

-- The joined components of a value, which `path.Clean` gives for a value without a slash in front.
joined : Bytes → Bytes
joined value = join (components (walk false (0, []) (split b'/' value))) (codes "/")

accepted :
    (value clean : Bytes)
    → clean_mount_path value ≡ some clean
    → (clean ≡ joined value)
      × (is_empty (joined value) ≡ false)
      × ((joined value == codes "..") ≡ false)
      × (has_prefix (joined value) (codes "../") ≡ false)
unfolding clean_mount_path path_clean joined
accepted value clean h = elim (Bool-cases (has_prefix value (codes "/"))) [
  | inl rooted ↦
      let c = join (components (walk true (0, []) (split b'/' value))) (codes "/") in
      ground (arith, rooted_prefix c)
  | inr relative ↦ ground (arith, eq_refl (codes "."))
]

no_join : (names : List Bytes) → is_empty (join names (codes "/")) ≡ false → names ≢ []
unfolding join
no_join [] h e = ground arith
no_join (name ∷ names) h e = cc

-- An accepted mount path is one or more names with slashes between: it is relative, and no part of it
-- is empty or a dot or goes up.
pub clean_mount_path-IsName :
    (value clean : Bytes)
    → clean_mount_path value ≡ some clean
    → (names : List Bytes) × (clean ≡ join names (codes "/")) × (names ≢ []) × All IsName names
unfolding joined
clean_mount_path-IsName value clean h =
    let (e, some_name, not_up, below) = accepted value clean h in
    let w = walk false (0, []) (split b'/' value) in
    (
      components w,
      e,
      no_join (components w) some_name,
      names_of false value (never_up w.0 (reverse_onto [] w.1) not_up below),
    )
