-- ===== src/RemoteFs/Peer/Mirror.antt =====
-- A backend that is used from the other side of the connection behaves as the one that is exported.
use sshx.Prelude.{ℕ, ◌≡◌, Option, none, some, [], if◌then◌else◌, bytes_eq}
use sshx.Prelude.Text.{Bytes}
use sshx.Prelude.Map.{lookup}
use sshx.RemoteFs.{Error, errno, einval, e2big, unknown, valid}
use sshx.RemoteFs.Effect.{ok, err}
use sshx.RemoteFs.Os.{Backend, SetAttr}
use sshx.RemoteFs.Frame.{WireFrame, no_attr, no_stat_fs, zero_frame, frame_request}
use sshx.RemoteFs.Peer.{Exports, PeerOptions}
use sshx.RemoteFs.Peer.Remote.{exchange, unlimited, response_frame}
use sshx.RemoteFs.Peer.Requests.{handle_request}
use sshx.RemoteFs.Peer.Answers.{seen, seen_both}
use sshx.RemoteFs.Peer.Mirrored.{remote}

-- Each operation of `remote` does what that of `b` does to the state of the exports, and gives its
-- result as it is seen from the other side. `Open` is only passed on with valid flags.
pub record Mirrors {S : Type 0} (message : Error → Bytes) (e : Exports S)
    (remote : Backend (Exports S × S)) (b : Backend S) : Type 0 where
  pub lookup :
      (path : Bytes) (s : S)
      → remote.lookup path (e, s)
        ≡ ((e, (b.lookup path s).0), seen message no_attr (b.lookup path s).1)
  pub read_dir :
      (path : Bytes) (s : S)
      → remote.read_dir path (e, s)
        ≡ ((e, (b.read_dir path s).0), seen message [] (b.read_dir path s).1)
  pub close :
      (handle : ℕ) (s : S)
      → remote.close handle (e, s)
        ≡ ((e, (b.close handle s).0), seen message tt (b.close handle s).1)
  pub fsync :
      (handle : ℕ) (s : S)
      → remote.fsync handle (e, s)
        ≡ ((e, (b.fsync handle s).0), seen message tt (b.fsync handle s).1)
  pub mkdir :
      (path : Bytes) (mode : ℕ) (s : S)
      → remote.mkdir path mode (e, s)
        ≡ ((e, (b.mkdir path mode s).0), seen message no_attr (b.mkdir path mode s).1)
  pub unlink :
      (path : Bytes) (s : S)
      → remote.unlink path (e, s) ≡ ((e, (b.unlink path s).0), seen message tt (b.unlink path s).1)
  pub rmdir :
      (path : Bytes) (s : S)
      → remote.rmdir path (e, s) ≡ ((e, (b.rmdir path s).0), seen message tt (b.rmdir path s).1)
  pub rename :
      (old_path new_path : Bytes) (s : S)
      → remote.rename old_path new_path (e, s)
        ≡ ((e, (b.rename old_path new_path s).0), seen message tt (b.rename old_path new_path s).1)
  pub link :
      (old_path new_path : Bytes) (s : S)
      → remote.link old_path new_path (e, s)
        ≡ ((e, (b.link old_path new_path s).0), seen message no_attr (b.link old_path new_path s).1)
  pub symlink :
      (target path : Bytes) (s : S)
      → remote.symlink target path (e, s)
        ≡ ((e, (b.symlink target path s).0), seen message no_attr (b.symlink target path s).1)
  pub readlink :
      (path : Bytes) (s : S)
      → remote.readlink path (e, s)
        ≡ ((e, (b.readlink path s).0), seen message [] (b.readlink path s).1)
  pub setattr :
      (path : Bytes) (handle : ℕ) (change : SetAttr) (s : S)
      → remote.setattr path handle change (e, s) ≡ (
        (e, (b.setattr path handle change s).0),
        seen message no_attr (b.setattr path handle change s).1,
      )
  pub stat_fs :
      (s : S)
      → remote.stat_fs (e, s) ≡ ((e, (b.stat_fs s).0), seen message no_stat_fs (b.stat_fs s).1)
  pub read :
      (handle offset size : ℕ) (s : S)
      → remote.read handle offset size (e, s) ≡ (
        (e, (b.read handle offset size s).0),
        seen_both message [] (b.read handle offset size s).1,
      )
  pub write :
      (handle offset : ℕ) (bytes : Bytes) (s : S)
      → remote.write handle offset bytes (e, s) ≡ (
        (e, (b.write handle offset bytes s).0),
        seen_both message 0 (b.write handle offset bytes s).1,
      )
  pub open_handle :
      (path : Bytes) (flags mode : ℕ) (s : S)
      → remote.open_handle path flags mode (e, s) ≡ (
          if valid flags
          then (
            (e, (b.open_handle path flags mode s).0),
            seen message (0, no_attr) (b.open_handle path flags mode s).1,
          )
          else ((e, s), seen message (0, no_attr) (err (errno einval))))
  -- Closing the remote side leaves the export open.
  pub close_backend : (s : S) → remote.close_backend (e, s) ≡ ((e, s), ok tt)

-- What the limit of a frame makes of a request, beside what it would be without: nothing if the request
-- and its response are within it; a request beyond it has no effect and fails; a response beyond it
-- comes back as E2BIG, with the effect of the request.
pub record IsLimited {S : Type 0} (opts : PeerOptions S) (id : ℕ) (limit : WireFrame → Option Bytes)
    (q : WireFrame) (s : Exports S × S) : Type 0 where
  pub fits :
      limit (record q { type = frame_request; id = id }) ≡ none
      → limit
          (response_frame id (handle_request opts s (record q { type = frame_request; id = id })).1)
        ≡ none
      → exchange limit opts id q s ≡ exchange unlimited opts id q s
  pub request_too_large :
      (text : Bytes)
      → limit (record q { type = frame_request; id = id }) ≡ some text
      → exchange limit opts id q s ≡ (s, (zero_frame, unknown))
  pub response_too_large :
      (text : Bytes)
      → limit (record q { type = frame_request; id = id }) ≡ none
      → limit
          (response_frame id (handle_request opts s (record q { type = frame_request; id = id })).1)
        ≡ some text
      → ((exchange limit opts id q s).0 ≡ (exchange unlimited opts id q s).0)
        × ((exchange limit opts id q s).1.1 ≡ errno e2big)
