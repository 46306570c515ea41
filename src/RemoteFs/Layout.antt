-- ===== src/RemoteFs/Layout.antt =====
-- internal/remotefs/layout.go: the mount paths that cross the wire.
pub mod Below
use sshx.Prelude.{
  ℕ, zero, suc, Bool, true, false, ◌||◌, Option, none, some, List, [], ◌∷◌, ◌++◌, is_empty,
  if◌then◌else◌, ◌==◌, bytes_eq, nat_eq,
}
use sshx.Prelude.Text.{Bytes, codes, has_prefix, contains_byte, join, split}

-- `path.Clean` of the standard library: how many times it goes up first, and the names behind, the
-- last one first.
abbrev pub Walk : Type 0
Walk = ℕ × List Bytes

unfoldable pub walk : Bool → Walk → List Bytes → Walk
walk rooted w [] = w
walk rooted (ups, []) (part ∷ parts) =
    if part == codes "" || part == codes "."
    then walk rooted (ups, []) parts
    else if part == codes ".."
    then walk rooted (if rooted then ups else suc ups, []) parts
    else walk rooted (ups, part ∷ []) parts
walk rooted (ups, name ∷ names) (part ∷ parts) =
    if part == codes "" || part == codes "."
    then walk rooted (ups, name ∷ names) parts
    else if part == codes ".."
    then walk rooted (ups, names) parts
    else walk rooted (ups, part ∷ name ∷ names) parts

abbrev pub reverse_onto : List Bytes → List Bytes → List Bytes
reverse_onto ys [] = ys
reverse_onto ys (x ∷ xs) = reverse_onto (x ∷ ys) xs

abbrev pub go_up : ℕ → List Bytes → List Bytes
go_up zero names = names
go_up (suc ups) names = codes ".." ∷ go_up ups names

abbrev pub components : Walk → List Bytes
components (ups, names) = go_up ups (reverse_onto [] names)

unfoldable pub path_clean : Bytes → Bytes
unfolding walk
path_clean value =
    let rooted = has_prefix value (codes "/") in
    let clean = join (components (walk rooted (0, []) (split b'/' value))) (codes "/") in
    if rooted then b'/' ∷ clean else if is_empty clean then codes "." else clean

unfoldable pub clean_mount_path : Bytes → Option Bytes
clean_mount_path value =
    if is_empty value || contains_byte value 0 || contains_byte value b'\\'
    then none
    else let clean = path_clean value in
      if clean == codes "."
        || has_prefix clean (codes "/")
        || clean == codes ".."
        || has_prefix clean (codes "../")
      then none
      else some clean
