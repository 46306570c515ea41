-- ===== src/RemoteFs/Peer/Served.antt =====
-- A call of the remote backend is served by the backend that is exported.
use sshx.Prelude.{ℕ, ◌≡◌, refl, some, bytes_eq}
use sshx.Prelude.Text.{Bytes}
use sshx.Prelude.Map.{lookup}
use sshx.RemoteFs.{Error}
use sshx.RemoteFs.Effect.{Result}
use sshx.RemoteFs.Os.{Backend}
use sshx.RemoteFs.Frame.{WireFrame, Op, frame_request}
use sshx.RemoteFs.Peer.{Exports, PeerOptions, serve}
use sshx.RemoteFs.Peer.Requests.{handle_request, dispatch, serve_mount}
use sshx.RemoteFs.Peer.Remote.{call, call_both, exchange, unlimited, arriving, answer}
use sshx.RemoteFs.Peer.Answers.{read_answer, read_both}

module _ {S : Type 0} (opts : PeerOptions S) (id : ℕ) (mount_id : Bytes) (e : Exports S)
    (b : Backend S) (registered : lookup mount_id e.backends ≡ some b) where
  serve-registered :
      (op : Op) (q : WireFrame) (s : S)
      → q.mount_id ≡ mount_id
      → serve_mount opts op (e, s) q ≡ ((e, (serve opts b q op s).0), (serve opts b q op s).1)
  unfolding serve_mount
  serve-registered op q s m = rw (m, registered, serve_mount)

  -- A frame of the remote backend, as it is sent.
  unfoldable pub sent : WireFrame → WireFrame
  sent frame = record frame { mount_id = mount_id; type = frame_request; id = id }

  served :
      (op : Op) (frame : WireFrame) (s : S)
      → ((q : WireFrame) → dispatch opts op (e, s) q ≡ serve_mount opts op (e, s) q)
      → exchange unlimited opts id (record frame { mount_id = mount_id; op = op }) (e, s) ≡ (
        (e, (serve opts b (sent (record frame { op = op })) op s).0),
        answer (serve opts b (sent (record frame { op = op })) op s).1,
      )
  unfolding exchange handle_request sent arriving
  served op frame s d =
      let q : WireFrame = record frame {
        op = op;
        mount_id = mount_id;
        type = frame_request;
        id = id;
      } in
      rw (d q, serve-registered op q s refl)

  pub call-served :
      {A : Type 0} (op : Op) (frame : WireFrame) (field : WireFrame → A) (s : S)
      → ((q : WireFrame) → dispatch opts op (e, s) q ≡ serve_mount opts op (e, s) q)
      → call (exchange unlimited opts id) mount_id (record frame { op = op }) field (e, s) ≡ (
        (e, (serve opts b (sent (record frame { op = op })) op s).0),
        read_answer opts field (serve opts b (sent (record frame { op = op })) op s).1,
      )
  unfolding call read_answer answer
  call-served op frame field s d = rw (served op frame s d)

  call_both-served :
      {A : Type 0} (op : Op) (frame : WireFrame) (field : WireFrame → A) (s : S)
      → ((q : WireFrame) → dispatch opts op (e, s) q ≡ serve_mount opts op (e, s) q)
      → call_both (exchange unlimited opts id) mount_id (record frame { op = op }) field (e, s) ≡ (
        (e, (serve opts b (sent (record frame { op = op })) op s).0),
        read_both opts field (serve opts b (sent (record frame { op = op })) op s).1,
      )
  unfolding call_both read_both answer
  call_both-served op frame field s d = rw (served op frame s d)

  pub mirrored :
      {A : Type 0} (op : Op) (frame : WireFrame) (field : WireFrame → A) (s : S)
      → ((q : WireFrame) → dispatch opts op (e, s) q ≡ serve_mount opts op (e, s) q)
      → {s' : S} {r : Result A} → (serve opts b (sent (record frame { op = op })) op s).0 ≡ s'
      → read_answer opts field (serve opts b (sent (record frame { op = op })) op s).1 ≡ r
      → call (exchange unlimited opts id) mount_id (record frame { op = op }) field (e, s)
        ≡ ((e, s'), r)
  mirrored op frame field s d es er = rw (call-served op frame field s d, es, er)

  pub mirrored_both :
      {A : Type 0} (op : Op) (frame : WireFrame) (field : WireFrame → A) (s : S)
      → ((q : WireFrame) → dispatch opts op (e, s) q ≡ serve_mount opts op (e, s) q)
      → {s' : S} {r : A × Error} → (serve opts b (sent (record frame { op = op })) op s).0 ≡ s'
      → read_both opts field (serve opts b (sent (record frame { op = op })) op s).1 ≡ r
      → call_both (exchange unlimited opts id) mount_id (record frame { op = op }) field (e, s)
        ≡ ((e, s'), r)
  mirrored_both op frame field s d es er = rw (call_both-served op frame field s d, es, er)
