-- ===== src/RemoteFs/Backend/Attributes.antt =====
-- internal/remotefs/backend.go: `Setattr`.
use sshx.Prelude.{ℕ, ◌%◌, Option, none, some, if◌then◌else◌, ◌==◌, nat_eq}
use sshx.Prelude.Text.{Bytes}
use sshx.RemoteFs.Effect.{Action, ◌>>=◌, ◌>>◌, done, finally}
use sshx.RemoteFs.Os.{Attr, SetAttr, Root, LocalFlags, wronly, file_info_to_attr}
use sshx.RemoteFs.Backend.{State, on_root, cleaned, file, close_file, attr_of}
use sshx.Prelude.{false}

-- `os.O_WRONLY`
abbrev pub write_only : LocalFlags
write_only = record { access = wronly; create = false; excl = false; trunc = false; sync = false }

abbrev pub or_current : Option ℕ → ℕ → ℕ
or_current none current = current
or_current (some t) current = t

-- A handle of 0 stands for none.
unfoldable pub file_of : {W F : Type 0} → ℕ → Action (State W F) (Option F)
unfolding file
file_of handle = if handle == 0 then done none else (do f ← file handle; done (some f))

module _ {W F : Type 0} (os : Root W F) where
  unfoldable pub set_size : Bytes → Option F → Option ℕ → Action (State W F) (Unit {0})
  unfolding on_root
  set_size name f none = done tt
  set_size name (some f) (some size) = on_root (os.truncate f size)
  set_size name none (some size) = do
    opened ← on_root (os.open_file name write_only 0)
    finally (on_root (os.truncate opened size)) (close_file os opened)

  unfoldable pub set_mode : Bytes → Option F → Option ℕ → Action (State W F) (Unit {0})
  unfolding on_root
  set_mode name f none = done tt
  set_mode name (some f) (some mode) = on_root (os.chmod_file f (mode % 512))
  set_mode name none (some mode) = on_root (os.chmod name (mode % 512))

  -- The times that are not given stay.
  unfoldable pub change_times : Bytes → Option ℕ → Option ℕ → Action (State W F) (Unit {0})
  unfolding on_root
  change_times name atime mtime = do
    info ← on_root (os.stat name)
    let current = file_info_to_attr info
    on_root (
        os.chtimes name (or_current atime current.atime_nano) (or_current mtime current.mtime_nano))

  unfoldable pub set_times : Bytes → Option ℕ → Option ℕ → Action (State W F) (Unit {0})
  unfolding change_times
  set_times name none none = done tt
  set_times name (some atime) mtime = change_times name (some atime) mtime
  set_times name none (some mtime) = change_times name none (some mtime)

  unfoldable pub setattr : Bytes → ℕ → SetAttr → Action (State W F) Attr
  unfolding cleaned file_of set_size set_mode set_times attr_of
  setattr path handle change = do
    name ← cleaned path
    f ← file_of handle
    set_size name f change.size
    set_mode name f change.mode
    set_times name change.atime_nano change.mtime_nano
    attr_of os name
