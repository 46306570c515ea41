-- ===== src/RemoteFs/Paths.antt =====
-- internal/remotefs/backend.go: `cleanPath`, the function and the method, and what the backend takes
-- from package filepath, for a Unix system.
pub mod Allowed
use sshx.Prelude.{
  ℕ, Bool, true, false, ◌&&◌, ◌||◌, List, [], ◌∷◌, ◌++◌, is_empty, if◌then◌else◌, ◌==◌, bytes_eq,
  nat_eq,
}
use sshx.Prelude.Text.{Bytes, codes, has_prefix, join, contains_byte}
use sshx.RemoteFs.{Errno, Error, eperm, errno}
use sshx.RemoteFs.Effect.{Result, ok, err}
use sshx.RemoteFs.Layout.{path_clean}

unfoldable pub clean_path : Bytes → Result Bytes
clean_path name =
    if is_empty name || name == codes "."
    then ok (codes ".")
    else if has_prefix name (codes "/")
    then err (errno eperm)
    else let clean = path_clean name in
      if clean == codes ".." || has_prefix clean (codes "../") then err (errno eperm) else ok clean

-- The loop over the excluded paths.
unfoldable pub is_excluded : List Bytes → Bytes → Bool
is_excluded [] name = false
is_excluded (x ∷ excluded) name =
    name == x || has_prefix name (x ++ codes "/") || is_excluded excluded name

-- The method of the backend.
unfoldable pub backend_clean_path : List Bytes → Bytes → Result Bytes
unfolding clean_path is_excluded
backend_clean_path excluded name = elim (clean_path name) [
  | err e ↦ err e
  | ok clean ↦ if is_excluded excluded clean then err (errno eperm) else ok clean
]

-- `filepath.Join` of two elements.
unfoldable pub path_join : Bytes → Bytes → Bytes
path_join a b =
    if is_empty a
    then if is_empty b then [] else path_clean b
    else if is_empty b
    then path_clean a
    else path_clean (a ++ b'/' ∷ b)

-- A path up to its last slash, with the slash.
unfoldable pub through_slash : Bytes → Bytes
unfolding contains_byte
through_slash [] = []
through_slash (c ∷ s) =
    let rest = through_slash s in if c == b'/' || contains_byte s b'/' then c ∷ rest else rest

-- `filepath.Dir`
unfoldable pub path_dir : Bytes → Bytes
unfolding through_slash
path_dir value = path_clean (through_slash value)
