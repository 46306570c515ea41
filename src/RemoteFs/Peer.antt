-- ===== src/RemoteFs/Peer.antt =====
-- internal/remotefs/peer.go: one end of a remote file system connection. This module has its state,
-- its exports and the answer to one request; the children have the loop that reads frames.
pub mod Requests
pub mod Remote
pub mod Answers
pub mod Served
pub mod Mirrored
pub mod Mirror
pub mod Loop
pub mod Handshake
use sshx.Prelude.{
  ℕ, Bool, true, false, not, ◌||◌, Option, none, some, List, [], ◌∷◌, is_empty, if◌then◌else◌, ◌==◌,
  bytes_eq, nat_eq, length,
}
use sshx.Prelude.Text.{Bytes, codes}
use sshx.Prelude.Map.{Map, lookup, insert, delete, has}
use sshx.RemoteFs.{
  Error, ErrorCode, Errno, no_error, errno, enotsup, enoent, einval, enosys, unknown, error_none,
  error_code_of, error_from_code, valid,
}
use sshx.RemoteFs.Effect.{Result, ok, err, Action}
use sshx.RemoteFs.Os.{Attr, Backend, DirEntry, StatFs}
use sshx.RemoteFs.Frame.{
  WireFrame, Op, FrameType, zero_frame, frame_request, op_mount_create, op_mount_release, op_lookup,
  op_readdir, op_open, op_close, op_read, op_write, op_fsync, op_mkdir, op_unlink, op_rmdir,
  op_rename, op_link, op_symlink, op_readlink, op_setattr, op_statfs, other_op,
}

-- What the peer has of the exports that it serves and of the mounts that it has made for the other
-- side. `S` is the state that the exports share.
pub record Exports (S : Type 0) : Type 0 where
  pub backends : Map Bytes (Backend S)
  pub backend_closed : Bool
  pub mounts : List Bytes
  pub mount_closed : Bool

-- `PeerOptions`, the text of an error, and `ctx.Err()`, which depends on what has happened so far.
pub record PeerOptions (S : Type 0) : Type 0 where
  pub on_mount : Option (Bytes → Bytes → Bool → Action S Bytes)
  pub on_unmount : Option (Bytes → Action S (Unit {0}))
  pub message : Error → Bytes
  pub context_error : S → Option Error

pub data RegisterError : Type 0 where
  missing closed_pipe already_exists : RegisterError

module _ {S : Type 0} where
  -- `RegisterBackend`; the backend is there.
  unfoldable pub register_backend : Bytes → Backend S → Exports S → Exports S × Option RegisterError
  register_backend mount_id backend e =
      if is_empty mount_id
      then (e, some missing)
      else if e.backend_closed
      then (e, some closed_pipe)
      else if has (lookup mount_id e.backends)
      then (e, some already_exists)
      else (record e { backends = insert mount_id backend e.backends }, none)

  unfoldable pub unregister_backend : Bytes → Exports S × S → (Exports S × S) × Result (Unit {0})
  unregister_backend mount_id (e, s) =
      let e' = record e { backends = delete mount_id e.backends } in
      elim (lookup mount_id e.backends) [
        | none ↦ ((e', s), ok tt)
        | some backend ↦ let (s', r) = backend.close_backend s in ((e', s'), r)
      ]

  module _ (opts : PeerOptions S) where
    unfoldable pub error_frame : Error → WireFrame
    error_frame no_error = zero_frame
    error_frame e = record zero_frame { error_code = error_code_of e; error = opts.message e }

    unfoldable pub attr_frame : Result Attr → WireFrame
    unfolding error_frame
    attr_frame (ok attr) = record zero_frame { attr = attr }
    attr_frame (err e) = error_frame e

    unfoldable pub unit_frame : Result (Unit {0}) → WireFrame
    unfolding error_frame
    unit_frame (ok _) = error_frame no_error
    unit_frame (err e) = error_frame e

    abbrev pub entries_frame : Result (List DirEntry) → WireFrame
    entries_frame (ok entries) = record zero_frame { entries = entries }
    entries_frame (err e) = error_frame e

    abbrev pub open_frame : Result (ℕ × Attr) → WireFrame
    open_frame (ok (handle, attr)) = record zero_frame { handle = handle; attr = attr }
    open_frame (err e) = error_frame e

    abbrev pub target_frame : Result Bytes → WireFrame
    target_frame (ok target) = record zero_frame { target = target }
    target_frame (err e) = error_frame e

    abbrev pub stat_fs_frame : Result StatFs → WireFrame
    stat_fs_frame (ok stat) = record zero_frame { stat_fs = stat }
    stat_fs_frame (err e) = error_frame e

    abbrev pub read_frame : Bytes × Error → WireFrame
    read_frame (bytes, no_error) = record zero_frame { bytes = bytes; size = length bytes }
    read_frame (bytes, e) = error_frame e

    abbrev pub write_frame : ℕ × Error → WireFrame
    write_frame (size, no_error) = record zero_frame { size = size }
    write_frame (size, e) = error_frame e

    -- The operations of a backend, at the fields of the request.
    unfoldable pub serve : Backend S → WireFrame → Op → S → S × WireFrame
    unfolding attr_frame unit_frame error_frame
    serve backend q op_lookup s = let (s', r) = backend.lookup q.path s in (s', attr_frame r)
    serve backend q op_readdir s = let (s', r) = backend.read_dir q.path s in (s', entries_frame r)
    serve backend q op_open s =
        if not (valid q.open_flags)
        then (s, error_frame (errno einval))
        else let (s', r) = backend.open_handle q.path q.open_flags q.mode s in (s', open_frame r)
    serve backend q op_close s = let (s', r) = backend.close q.handle s in (s', unit_frame r)
    serve backend q op_read s =
        let (s', r) = backend.read q.handle q.offset q.size s in (s', read_frame r)
    serve backend q op_write s =
        let (s', r) = backend.write q.handle q.offset q.bytes s in (s', write_frame r)
    serve backend q op_fsync s = let (s', r) = backend.fsync q.handle s in (s', unit_frame r)
    serve backend q op_mkdir s = let (s', r) = backend.mkdir q.path q.mode s in (s', attr_frame r)
    serve backend q op_unlink s = let (s', r) = backend.unlink q.path s in (s', unit_frame r)
    serve backend q op_rmdir s = let (s', r) = backend.rmdir q.path s in (s', unit_frame r)
    serve backend q op_rename s =
        let (s', r) = backend.rename q.path q.path2 s in (s', unit_frame r)
    serve backend q op_link s = let (s', r) = backend.link q.path q.path2 s in (s', attr_frame r)
    serve backend q op_symlink s =
        let (s', r) = backend.symlink q.target q.path s in (s', attr_frame r)
    serve backend q op_readlink s = let (s', r) = backend.readlink q.path s in (s', target_frame r)
    serve backend q op_setattr s =
        let (s', r) = backend.setattr q.path q.handle q.change s in (s', attr_frame r)
    serve backend q op_statfs s = let (s', r) = backend.stat_fs s in (s', stat_fs_frame r)
    serve backend q op s = (s, error_frame (errno enosys))
