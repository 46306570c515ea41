-- ===== src/RemoteFs/Backend.antt =====
-- internal/remotefs/backend.go: the directory that a peer exports, as a `Backend` over the table of
-- open files and the state of the file system.
pub mod Changes
pub mod Attributes
pub mod Export
pub mod Table
pub mod Closed
pub mod Confined
use sshx.Prelude.{
  ℕ, ◌+◌, ◌%◌, ◌/◌, ◌^◌, Bool, true, false, not, ◌&&◌, Option, none, some, List, [], ◌∷◌,
  if◌then◌else◌, ◌==◌, bytes_eq, nat_eq, leb, length,
}
use sshx.Prelude.Text.{Bytes}
use sshx.Prelude.Map.{Map, lookup, insert, delete, values}
use sshx.RemoteFs.{
  Error, Errno, eperm, ebadf, einval, e2big, enotdir, eisdir, errno, no_error, valid,
}
use sshx.RemoteFs.Effect.{Result, ok, err, Action, ◌>>=◌, ◌>>◌, done, fail, on_failure, finally}
use sshx.RemoteFs.Os.{
  Attr, DirEntry, StatFs, FileInfo, LocalFlags, Access, rdonly, wronly, rdwr, Root, ReadEnd,
  read_all, end_of_file, read_failed, is_regular, is_visible_mode, file_info_to_attr,
}
use sshx.RemoteFs.Paths.{backend_clean_path, path_join, path_dir}

pub record RootBackend (F : Type 0) : Type 0 where
  pub root_path : Bytes
  pub excluded : List Bytes
  pub disable_delete : Bool
  pub next : ℕ
  pub handles : Map ℕ F
  pub is_closed : Bool

-- `OpenRootBackendWithOptions`, once the root is open and the excluded paths are relative to it.
unfoldable pub open_root_backend : {F : Type 0} → Bytes → Bool → List Bytes → RootBackend F
open_root_backend root_path disable_delete excluded = record {
  root_path = root_path;
  excluded = excluded;
  disable_delete = disable_delete;
  next = 1;
  handles = [];
  is_closed = false;
}

abbrev pub max_data_size : ℕ
max_data_size = 262144

-- Whether the bit of weight `w` is set in `flags`.
abbrev pub bit : ℕ → ℕ → Bool
bit flags w = flags / w % 2 == 1

unfoldable pub local_open_flags : ℕ → Result LocalFlags
local_open_flags flags =
    if not (valid flags)
    then err (errno einval)
    else ok (record {
      access = if bit flags 1 then if bit flags 2 then rdwr else rdonly else wronly;
      create = bit flags 4;
      excl = bit flags 8;
      trunc = bit flags 16;
      sync = bit flags 64;
    })

-- The fields of the backend, and the state of the file system.
abbrev pub State : Type 0 → Type 0 → Type 0
State W F = RootBackend F × W

module _ {W F : Type 0} where
  -- A call of the operating system.
  unfoldable pub on_root : {A : Type 0} → Action W A → Action (State W F) A
  on_root m (b, w) = let (w', r) = m w in ((b, w'), r)

  unfoldable pub cleaned : Bytes → Action (State W F) Bytes
  cleaned name (b, w) = ((b, w), backend_clean_path b.excluded name)

  -- The test on a name that `ReadDir` lists.
  unfoldable pub is_listed : Bytes → Action (State W F) Bool
  is_listed path (b, w) =
      ((b, w), ok (elim (backend_clean_path b.excluded path) [ err e ↦ false | ok name ↦ true ]))

  -- `file`
  unfoldable pub file : ℕ → Action (State W F) F
  file handle (b, w) = elim (lookup handle b.handles) [
    | none ↦ ((b, w), err (errno ebadf))
    | some f ↦ ((b, w), ok f)
  ]

  -- The end of `Open`, under the lock.
  unfoldable pub add_handle : F → Action (State W F) ℕ
  add_handle f (b, w) =
      let id = (b.next + 1) % 2 ^ 64 in
      ((record b { next = id; handles = insert id f b.handles }, w), ok id)

  -- The start of `Close`, under the lock.
  unfoldable pub take_handle : ℕ → Action (State W F) F
  take_handle handle (b, w) =
      let b' = record b { handles = delete handle b.handles } in
      elim (lookup handle b.handles) [
        | none ↦ ((b', w), err (errno ebadf))
        | some f ↦ ((b', w), ok f)
      ]

  -- A test on the options.
  unfoldable pub deletes_disabled : Action (State W F) Bool
  deletes_disabled (b, w) = ((b, w), ok b.disable_delete)

  module _ (os : Root W F) where
    abbrev pub close_file : F → Action (State W F) (Unit {0})
    close_file f = on_root (os.close_file f)

    -- What an operation that made `name` answers.
    unfoldable pub attr_of : Bytes → Action (State W F) Attr
    unfolding on_root
    attr_of name = do info ← on_root (os.lstat name); done (file_info_to_attr info)

    unfoldable pub lookup_attr : Bytes → Action (State W F) Attr
    unfolding on_root cleaned
    lookup_attr path = do
      name ← cleaned path
      info ← on_root (os.lstat name)
      if not (is_visible_mode info.mode) then fail (errno eperm) else done (file_info_to_attr info)

    -- The loop of `ReadDir`.
    unfoldable pub visible_entries : F → Bytes → List Bytes → Action (State W F) (List DirEntry)
    unfolding on_root is_listed
    visible_entries f name [] = done []
    visible_entries f name (entry ∷ entries) =
        let rest = visible_entries f name entries in
        do
          listed ← is_listed (path_join name entry)
          if not listed then rest else do
            info ← on_root (os.entry_info f entry)
            if not (is_visible_mode info.mode) then rest else do
              out ← rest
              let attr = file_info_to_attr info
              done (record { name = entry; mode = attr.mode; ino = attr.ino } ∷ out)

    unfoldable pub read_dir : Bytes → Action (State W F) (List DirEntry)
    unfolding on_root cleaned visible_entries
    read_dir path = do
      name ← cleaned path
      f ← on_root (os.open_dir name)
      finally (do entries ← on_root (os.entries f); visible_entries f name entries) (close_file f)

    unfoldable pub open_handle : Bytes → ℕ → ℕ → Action (State W F) (ℕ × Attr)
    unfolding on_root cleaned add_handle
    open_handle path flags mode = do
      name ← cleaned path
      local_flags ← λ s. (s, local_open_flags flags)
      f ← on_root (os.open_file name local_flags (mode % 512))
      info ← on_failure (on_root (os.stat_file f)) (close_file f)
      if not (is_regular info.mode)
          then finally (fail (errno eperm)) (close_file f)
          else do id ← add_handle f; done (id, file_info_to_attr info)

    unfoldable pub close : ℕ → Action (State W F) (Unit {0})
    unfolding on_root take_handle
    close handle = do f ← take_handle handle; close_file f

    -- `Read`: what `ReadAt` read, and its error unless that is the end of the file.
    unfoldable pub read : ℕ → ℕ → ℕ → State W F → State W F × (Bytes × Error)
    read handle offset size (b, w) =
        let wanted = if leb size max_data_size then size else max_data_size in
        elim (lookup handle b.handles) [
          | none ↦ ((b, w), ([], errno ebadf))
          | some f ↦
              let (w', (bytes, end)) = os.read_at f offset wanted w in
              let e : Error = elim end [
                | read_all ↦ no_error
                | end_of_file ↦ no_error
                | read_failed e ↦ e
              ] in
              ((b, w'), (bytes, e))
        ]

    unfoldable pub write : ℕ → ℕ → Bytes → State W F → State W F × (ℕ × Error)
    write handle offset bytes (b, w) =
        if not (leb (length bytes) max_data_size)
        then ((b, w), (0, errno e2big))
        else elim (lookup handle b.handles) [
          | none ↦ ((b, w), (0, errno ebadf))
          | some f ↦ let (w', (n, e)) = os.write_at f offset bytes w in ((b, w'), (n % 2 ^ 32, e))
        ]

    unfoldable pub fsync : ℕ → Action (State W F) (Unit {0})
    unfolding on_root file
    fsync handle = do f ← file handle; on_root (os.sync f)
