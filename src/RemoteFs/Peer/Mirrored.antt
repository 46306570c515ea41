-- ===== src/RemoteFs/Peer/Mirrored.antt =====
-- Each operation of the remote backend, as it is served on the other side.
use sshx.Prelude.{ℕ, ◌≡◌, refl, ap, some, [], if◌then◌else◌, bytes_eq, Bool-cases, inl, inr}
use sshx.Prelude.Text.{Bytes}
use sshx.Prelude.Map.{lookup}
use sshx.RemoteFs.{errno, einval, valid}
use sshx.RemoteFs.Effect.{err}
use sshx.RemoteFs.Os.{Backend, Attr, SetAttr}
use sshx.RemoteFs.Frame.{
  no_attr, no_stat_fs, zero_frame, op_lookup, op_readdir, op_open, op_close, op_read, op_write,
  op_fsync, op_mkdir, op_unlink, op_rmdir, op_rename, op_link, op_symlink, op_readlink, op_setattr,
  op_statfs,
}
use sshx.RemoteFs.Peer.{Exports, PeerOptions, serve}
use sshx.RemoteFs.Peer.Requests.{dispatch}
use sshx.RemoteFs.Peer.Remote.{remote_backend, exchange, unlimited}
use sshx.RemoteFs.Peer.Answers.{
  seen, seen_both, attr-seen, unit-seen, entries-seen, open-seen, target-seen, stat_fs-seen,
  read-seen, write-seen,
}
use sshx.RemoteFs.Peer.Served.{sent, call-served, mirrored, mirrored_both}

module _ {S : Type 0} (opts : PeerOptions S) (id : ℕ) (mount_id : Bytes) (e : Exports S)
    (b : Backend S) (registered : lookup mount_id e.backends ≡ some b) where
  unfoldable pub remote : Backend (Exports S × S)
  remote = remote_backend (exchange unlimited opts id) mount_id

  pub mirror_lookup :
      (path : Bytes) (s : S)
      → remote.lookup path (e, s)
        ≡ ((e, (b.lookup path s).0), seen opts.message no_attr (b.lookup path s).1)
  unfolding remote remote_backend serve sent
  mirror_lookup path s =
      mirrored opts id mount_id e b registered op_lookup (record zero_frame { path = path })
        (λ f. f.attr) s (λ q. unfold dispatch in refl) refl (attr-seen opts (b.lookup path s).1)

  pub mirror_read_dir :
      (path : Bytes) (s : S)
      → remote.read_dir path (e, s)
        ≡ ((e, (b.read_dir path s).0), seen opts.message [] (b.read_dir path s).1)
  unfolding remote remote_backend serve sent
  mirror_read_dir path s =
      mirrored opts id mount_id e b registered op_readdir (record zero_frame { path = path })
        (λ f. f.entries) s (λ q. unfold dispatch in refl) refl
        (entries-seen opts (b.read_dir path s).1)

  pub mirror_close :
      (handle : ℕ) (s : S)
      → remote.close handle (e, s)
        ≡ ((e, (b.close handle s).0), seen opts.message tt (b.close handle s).1)
  unfolding remote remote_backend serve sent
  mirror_close handle s =
      mirrored opts id mount_id e b registered op_close (record zero_frame { handle = handle })
        (λ _. tt) s (λ q. unfold dispatch in refl) refl (unit-seen opts (b.close handle s).1)

  pub mirror_fsync :
      (handle : ℕ) (s : S)
      → remote.fsync handle (e, s)
        ≡ ((e, (b.fsync handle s).0), seen opts.message tt (b.fsync handle s).1)
  unfolding remote remote_backend serve sent
  mirror_fsync handle s =
      mirrored opts id mount_id e b registered op_fsync (record zero_frame { handle = handle })
        (λ _. tt) s (λ q. unfold dispatch in refl) refl (unit-seen opts (b.fsync handle s).1)

  pub mirror_mkdir :
      (path : Bytes) (mode : ℕ) (s : S)
      → remote.mkdir path mode (e, s)
        ≡ ((e, (b.mkdir path mode s).0), seen opts.message no_attr (b.mkdir path mode s).1)
  unfolding remote remote_backend serve sent
  mirror_mkdir path mode s =
      mirrored opts id mount_id e b registered op_mkdir
        (record zero_frame { path = path; mode = mode }) (λ f. f.attr) s
        (λ q. unfold dispatch in refl) refl (attr-seen opts (b.mkdir path mode s).1)

  pub mirror_unlink :
      (path : Bytes) (s : S)
      → remote.unlink path (e, s)
        ≡ ((e, (b.unlink path s).0), seen opts.message tt (b.unlink path s).1)
  unfolding remote remote_backend serve sent
  mirror_unlink path s =
      mirrored opts id mount_id e b registered op_unlink (record zero_frame { path = path })
        (λ _. tt) s (λ q. unfold dispatch in refl) refl (unit-seen opts (b.unlink path s).1)

  pub mirror_rmdir :
      (path : Bytes) (s : S)
      → remote.rmdir path (e, s)
        ≡ ((e, (b.rmdir path s).0), seen opts.message tt (b.rmdir path s).1)
  unfolding remote remote_backend serve sent
  mirror_rmdir path s =
      mirrored opts id mount_id e b registered op_rmdir (record zero_frame { path = path })
        (λ _. tt) s (λ q. unfold dispatch in refl) refl (unit-seen opts (b.rmdir path s).1)

  pub mirror_rename :
      (old_path new_path : Bytes) (s : S)
      → remote.rename old_path new_path (e, s) ≡ (
        (e, (b.rename old_path new_path s).0),
        seen opts.message tt (b.rename old_path new_path s).1,
      )
  unfolding remote remote_backend serve sent
  mirror_rename old_path new_path s =
      mirrored opts id mount_id e b registered op_rename
        (record zero_frame { path = old_path; path2 = new_path }) (λ _. tt) s
        (λ q. unfold dispatch in refl) refl (unit-seen opts (b.rename old_path new_path s).1)

  pub mirror_link :
      (old_path new_path : Bytes) (s : S)
      → remote.link old_path new_path (e, s) ≡ (
        (e, (b.link old_path new_path s).0),
        seen opts.message no_attr (b.link old_path new_path s).1,
      )
  unfolding remote remote_backend serve sent
  mirror_link old_path new_path s =
      mirrored opts id mount_id e b registered op_link
        (record zero_frame { path = old_path; path2 = new_path }) (λ f. f.attr) s
        (λ q. unfold dispatch in refl) refl (attr-seen opts (b.link old_path new_path s).1)

  pub mirror_symlink :
      (target path : Bytes) (s : S)
      → remote.symlink target path (e, s)
        ≡ ((e, (b.symlink target path s).0), seen opts.message no_attr (b.symlink target path s).1)
  unfolding remote remote_backend serve sent
  mirror_symlink target path s =
      mirrored opts id mount_id e b registered op_symlink
        (record zero_frame { target = target; path = path }) (λ f. f.attr) s
        (λ q. unfold dispatch in refl) refl (attr-seen opts (b.symlink target path s).1)

  pub mirror_readlink :
      (path : Bytes) (s : S)
      → remote.readlink path (e, s)
        ≡ ((e, (b.readlink path s).0), seen opts.message [] (b.readlink path s).1)
  unfolding remote remote_backend serve sent
  mirror_readlink path s =
      mirrored opts id mount_id e b registered op_readlink (record zero_frame { path = path })
        (λ f. f.target) s (λ q. unfold dispatch in refl) refl
        (target-seen opts (b.readlink path s).1)

  pub mirror_setattr :
      (path : Bytes) (handle : ℕ) (change : SetAttr) (s : S)
      → remote.setattr path handle change (e, s) ≡ (
        (e, (b.setattr path handle change s).0),
        seen opts.message no_attr (b.setattr path handle change s).1,
      )
  unfolding remote remote_backend serve sent
  mirror_setattr path handle change s =
      mirrored opts id mount_id e b registered op_setattr
        (record zero_frame { path = path; handle = handle; change = change }) (λ f. f.attr) s
        (λ q. unfold dispatch in refl) refl (attr-seen opts (b.setattr path handle change s).1)

  pub mirror_stat_fs :
      (s : S)
      → remote.stat_fs (e, s) ≡ ((e, (b.stat_fs s).0), seen opts.message no_stat_fs (b.stat_fs s).1)
  unfolding remote remote_backend serve sent
  mirror_stat_fs s =
      mirrored opts id mount_id e b registered op_statfs zero_frame (λ f. f.stat_fs) s
        (λ q. unfold dispatch in refl) refl (stat_fs-seen opts (b.stat_fs s).1)

  pub mirror_read :
      (handle offset size : ℕ) (s : S)
      → remote.read handle offset size (e, s) ≡ (
        (e, (b.read handle offset size s).0),
        seen_both opts.message [] (b.read handle offset size s).1,
      )
  unfolding remote remote_backend serve sent
  mirror_read handle offset size s =
      mirrored_both opts id mount_id e b registered op_read
        (record zero_frame { handle = handle; offset = offset; size = size }) (λ f. f.bytes) s
        (λ q. unfold dispatch in refl) refl (read-seen opts (b.read handle offset size s).1)

  pub mirror_write :
      (handle offset : ℕ) (bytes : Bytes) (s : S)
      → remote.write handle offset bytes (e, s) ≡ (
        (e, (b.write handle offset bytes s).0),
        seen_both opts.message 0 (b.write handle offset bytes s).1,
      )
  unfolding remote remote_backend serve sent
  mirror_write handle offset bytes s =
      mirrored_both opts id mount_id e b registered op_write
        (record zero_frame { handle = handle; offset = offset; bytes = bytes }) (λ f. f.size) s
        (λ q. unfold dispatch in refl) refl (write-seen opts (b.write handle offset bytes s).1)

  pub mirror_open_handle :
      (path : Bytes) (flags mode : ℕ) (s : S)
      → remote.open_handle path flags mode (e, s) ≡ (
          if valid flags
          then (
            (e, (b.open_handle path flags mode s).0),
            seen opts.message (0, no_attr) (b.open_handle path flags mode s).1,
          )
          else ((e, s), seen opts.message (0, no_attr) (err (errno einval))))
  unfolding remote remote_backend serve sent
  mirror_open_handle path flags mode s =
      let open_served =
        call-served opts id mount_id e b registered {A = ℕ × Attr} op_open
          (record zero_frame { path = path; open_flags = flags; mode = mode })
          (λ f. (f.handle, f.attr)) s (λ q. unfold dispatch in refl) in
      elim (Bool-cases (valid flags)) [
        | inl v ↦
            rw (open_served, v)
              (ap (λ r. ((e, (b.open_handle path flags mode s).0), r))
                (open-seen opts (b.open_handle path flags mode s).1))
        | inr v ↦ rw (open_served, v) (ap (λ r. ((e, s), r)) (open-seen opts (err (errno einval))))
      ]
