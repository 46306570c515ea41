-- ===== src/RemoteFs/Backend/Changes.antt =====
-- internal/remotefs/backend.go: the operations that change names, and those that only look at one.
use sshx.Prelude.{ℕ, ◌%◌, Bool, not, ◌&&◌, if◌then◌else◌, ◌==◌, bytes_eq, nat_eq}
use sshx.Prelude.Text.{Bytes}
use sshx.RemoteFs.{eperm, enotdir, eisdir, errno}
use sshx.RemoteFs.Effect.{Action, ◌>>=◌, ◌>>◌, fail}
use sshx.RemoteFs.Os.{Attr, StatFs, Root}
use sshx.RemoteFs.Paths.{path_dir}
use sshx.RemoteFs.Backend.{State, on_root, cleaned, deletes_disabled, attr_of}

module _ {W F : Type 0} (os : Root W F) where
  unfoldable pub mkdir : Bytes → ℕ → Action (State W F) Attr
  unfolding on_root cleaned attr_of
  mkdir path mode = do name ← cleaned path; on_root (os.mkdir name (mode % 512)); attr_of os name

  unfoldable pub remove : Bytes → Bool → Action (State W F) (Unit {0})
  unfolding on_root cleaned deletes_disabled
  remove path directory = do
    disabled ← deletes_disabled
    if disabled then fail (errno eperm) else do
      name ← cleaned path
      info ← on_root (os.lstat name)
      if directory && not info.mode.is_dir
          then fail (errno enotdir)
          else if not directory && info.mode.is_dir
          then fail (errno eisdir)
          else on_root (os.remove name)

  unfoldable pub rename : Bytes → Bytes → Action (State W F) (Unit {0})
  unfolding on_root cleaned deletes_disabled
  rename old_path new_path = do
    old_name ← cleaned old_path
    new_name ← cleaned new_path
    disabled ← deletes_disabled
    if disabled && not (path_dir old_name == path_dir new_name)
        then fail (errno eperm)
        else on_root (os.rename old_name new_name)

  unfoldable pub link : Bytes → Bytes → Action (State W F) Attr
  unfolding on_root cleaned attr_of
  link old_path new_path = do
    old_name ← cleaned old_path
    new_name ← cleaned new_path
    on_root (os.link old_name new_name)
    attr_of os new_name

  unfoldable pub symlink : Bytes → Bytes → Action (State W F) Attr
  unfolding on_root cleaned attr_of
  symlink target new_path = do
    new_name ← cleaned new_path
    on_root (os.symlink target new_name)
    attr_of os new_name

  unfoldable pub readlink : Bytes → Action (State W F) Bytes
  unfolding on_root cleaned
  readlink path = do name ← cleaned path; on_root (os.readlink name)

  unfoldable pub stat_fs : Action (State W F) StatFs
  unfolding on_root
  stat_fs (b, w) = on_root (os.stat_fs b.root_path) (b, w)
