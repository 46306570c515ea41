-- ===== src/RemoteFs/Peer/Requests.antt =====
-- internal/remotefs/peer.go: `handleRequest`.
use sshx.Prelude.{◌||◌, none, some, bytes_eq, if◌then◌else◌}
use sshx.Prelude.Map.{lookup, has}
use sshx.Prelude.Set.{add, remove}
use sshx.RemoteFs.{Error, errno, enotsup, enoent, unknown}
use sshx.RemoteFs.Effect.{Result, ok, err}
use sshx.Prelude.Text.{Bytes}
use sshx.RemoteFs.Frame.{WireFrame, Op, zero_frame, op_mount_create, op_mount_release}
use sshx.RemoteFs.Peer.{Exports, PeerOptions, error_frame, serve}

module _ {S : Type 0} (opts : PeerOptions S) where
  -- `OnUnmount`, where there is one, with its error dropped.
  unfoldable pub undo_mount : Bytes → S → S
  undo_mount mount_id s = elim opts.on_unmount [ none ↦ s | some f ↦ (f mount_id s).0 ]

  unfoldable pub mounted : Exports S → WireFrame → S × Result Bytes → (Exports S × S) × WireFrame
  unfolding error_frame undo_mount
  mounted e q (s, err x) = ((e, s), error_frame opts x)
  mounted e q (s, ok path) =
      if e.mount_closed || has (opts.context_error s)
      then (let s' = undo_mount q.mount_id s in
          let answer : Error = elim (opts.context_error s') [ none ↦ unknown | some x ↦ x ] in
          ((e, s'), error_frame opts answer))
      else (
        (record e { mounts = add q.mount_id e.mounts }, s),
        record zero_frame { mount_path = path },
      )

  unfoldable pub released :
      Exports S → WireFrame → S × Result (Unit {0}) → (Exports S × S) × WireFrame
  unfolding error_frame
  released e q (s, err x) = ((e, s), error_frame opts x)
  released e q (s, ok _) = ((record e { mounts = remove q.mount_id e.mounts }, s), zero_frame)

  -- A request to one of the exports.
  unfoldable pub serve_mount : Op → Exports S × S → WireFrame → (Exports S × S) × WireFrame
  unfolding error_frame serve
  serve_mount op (e, s) q = elim (lookup q.mount_id e.backends) [
    | none ↦ ((e, s), error_frame opts (errno enoent))
    | some backend ↦ let (s', frame) = serve opts backend q op s in ((e, s'), frame)
  ]

  unfoldable pub dispatch : Op → Exports S × S → WireFrame → (Exports S × S) × WireFrame
  unfolding mounted released error_frame serve_mount
  dispatch op_mount_create (e, s) q = elim opts.on_mount [
    | none ↦ ((e, s), error_frame opts (errno enotsup))
    | some f ↦ mounted e q (f q.mount_id q.mount_path q.read_only s)
  ]
  dispatch op_mount_release (e, s) q = elim opts.on_unmount [
    | none ↦ released e q (s, ok tt)
    | some f ↦ released e q (f q.mount_id s)
  ]
  dispatch op state q = serve_mount op state q

  unfoldable pub handle_request : Exports S × S → WireFrame → (Exports S × S) × WireFrame
  unfolding dispatch
  handle_request state q = dispatch q.op state q
