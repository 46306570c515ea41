-- ===== src/RemoteFs/Peer/Loop/Shut.antt =====
-- Exports that are closed stay closed, whatever a request asks.
use sshx.Prelude.{
  ◌≡◌, ◌≢◌, refl, Bool, true, false, Option, [], bytes_eq, nat_eq, arith, ◌||◌, is_empty, if-holds,
  Option-holds,
}
use sshx.Prelude.Text.{Bytes}
use sshx.Prelude.Map.{lookup, delete, has}
use sshx.Prelude.Set.{remove}
use sshx.RemoteFs.Effect.{Result, ok, err}
use sshx.RemoteFs.Os.{Backend}
use sshx.RemoteFs.Frame.{WireFrame, Op, op_mount_create, op_mount_release}
use sshx.RemoteFs.Peer.{Exports, PeerOptions, RegisterError, register_backend, unregister_backend}
use sshx.RemoteFs.Peer.Requests.{handle_request, dispatch, serve_mount, mounted, released}

-- Nothing is exported and nothing mounted, and both are closed.
pub record IsShut {S : Type 0} (e : Exports S) : Type 0 where
  pub no_backends : e.backends ≡ []
  pub backends_closed : e.backend_closed ≡ true
  pub no_mounts : e.mounts ≡ []
  pub mounts_closed : e.mount_closed ≡ true

still_open : (a b : Bool) → a ≡ true → (a || b) ≢ false
still_open a b h e = ground arith

or_false : (a : Bool) → a ≡ false → (a || false) ≡ false
or_false a e = ground arith

module _ {S : Type 0} (opts : PeerOptions S) where
  mounted-IsShut :
      (e : Exports S) (q : WireFrame) (r : S × Result Bytes)
      → IsShut e
      → IsShut (mounted opts e q r).0.0
  unfolding mounted
  mounted-IsShut e q (s, err x) h = h
  mounted-IsShut e q (s, ok path) h =
      if-holds {A = (Exports S × S) × WireFrame} (λ r. IsShut r.0.0)
        (e.mount_closed || has (opts.context_error s)) (λ _. h)
        (λ open_still.
          absurd
            (still_open e.mount_closed (has (opts.context_error s)) h.mounts_closed open_still))

  released-IsShut :
      (e : Exports S) (q : WireFrame) (r : S × Result (Unit {0}))
      → IsShut e
      → IsShut (released opts e q r).0.0
  unfolding released
  released-IsShut e q (s, err x) h = h
  released-IsShut e q (s, ok t) h = record {
    no_backends = h.no_backends;
    backends_closed = h.backends_closed;
    no_mounts = rw h.no_mounts (unfold remove in refl);
    mounts_closed = h.mounts_closed;
  }

  serve_mount-IsShut :
      (op : Op) (e : Exports S) (s : S) (q : WireFrame)
      → IsShut e
      → IsShut (serve_mount opts op (e, s) q).0.0
  unfolding serve_mount
  serve_mount-IsShut op e s q h =
      Option-holds {B = (Exports S × S) × WireFrame} (λ r. IsShut r.0.0)
        (lookup q.mount_id e.backends) (λ _. h) (λ backend _. h)

  dispatch-IsShut :
      (op : Op) (e : Exports S) (s : S) (q : WireFrame)
      → IsShut e
      → IsShut (dispatch opts op (e, s) q).0.0
  unfolding dispatch
  dispatch-IsShut op_mount_create e s q h =
      Option-holds {B = (Exports S × S) × WireFrame} (λ r. IsShut r.0.0) opts.on_mount (λ _. h)
        (λ f _. mounted-IsShut e q (f q.mount_id q.mount_path q.read_only s) h)
  dispatch-IsShut op_mount_release e s q h =
      Option-holds {B = (Exports S × S) × WireFrame} (λ r. IsShut r.0.0) opts.on_unmount
        (λ _. released-IsShut e q (s, ok tt) h) (λ f _. released-IsShut e q (f q.mount_id s) h)
  dispatch-IsShut op e s q h = serve_mount-IsShut op e s q h

  pub handle_request-IsShut :
      (e : Exports S) (s : S) (q : WireFrame) → IsShut e → IsShut (handle_request opts (e, s) q).0.0
  unfolding handle_request
  handle_request-IsShut e s q h = dispatch-IsShut q.op e s q h

pub register_backend-IsShut :
    {S : Type 0} (mount_id : Bytes) (backend : Backend S) (e : Exports S)
    → IsShut e
    → IsShut (register_backend mount_id backend e).0
unfolding register_backend
register_backend-IsShut {S = S} mount_id backend e h =
    let P : Exports S × Option RegisterError → Type 0 = λ r. IsShut r.0 in
    if-holds P (is_empty mount_id) (λ _. h)
      (λ _.
        if-holds P e.backend_closed (λ _. h)
          (λ open_still. absurd (
            still_open e.backend_closed false h.backends_closed
              (or_false e.backend_closed open_still))))

pub unregister_backend-IsShut :
    {S : Type 0} (mount_id : Bytes) (e : Exports S) (s : S)
    → IsShut e
    → IsShut (unregister_backend mount_id (e, s)).0.0
unfolding unregister_backend
unregister_backend-IsShut {S = S} mount_id e s h =
    let shut : IsShut (record e { backends = delete mount_id e.backends }) = record {
      no_backends = rw h.no_backends (unfold delete in refl);
      backends_closed = h.backends_closed;
      no_mounts = h.no_mounts;
      mounts_closed = h.mounts_closed;
    } in
    Option-holds {B = (Exports S × S) × Result (Unit {0})} (λ r. IsShut r.0.0)
      (lookup mount_id e.backends) (λ _. shut) (λ backend _. shut)
