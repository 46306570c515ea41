-- ===== src/RemoteFs/Peer/Loop/Steps.antt =====
-- The runs of a peer, in any order of its goroutines and of the frames that arrive.
use sshx.Prelude.{ℕ, ◌<◌, ◌≡◌, true, some, bytes_eq, nat_eq, contains}
use sshx.Prelude.Text.{Bytes}
use sshx.Prelude.Map.{lookup, has}
use sshx.RemoteFs.Os.{Backend}
use sshx.RemoteFs.Frame.{WireFrame}
use sshx.RemoteFs.Peer.{PeerOptions, register_backend, unregister_backend}
use sshx.RemoteFs.Peer.Loop.{
  Peer, Task, SendOutcome, start_peer, begin_request, end_request, cancel_request, receive,
  run_task, run_unmount, close, max_in_flight,
}

-- `RegisterBackend` and `UnregisterBackend` on a peer.
unfoldable pub register : {S : Type 0} → Bytes → Backend S → Peer S → Peer S
unfolding register_backend
register mount_id backend p = record p { exports = (register_backend mount_id backend p.exports).0 }

unfoldable pub unregister : {S : Type 0} → Bytes → Peer S → Peer S
unfolding unregister_backend
unregister mount_id p =
    let ((exports, s), r) = unregister_backend mount_id (p.exports, p.state) in
    record p { exports = exports; state = s }

pub data Step {S : Type 0} (opts : PeerOptions S) : Peer S → Peer S → Type 0 where
  begins :
      (q : WireFrame) {p : Peer S}
      → p.outgoing < max_in_flight
      → Step opts p (begin_request opts q p)
  ends :
      (id : ℕ) {p : Peer S} → has (lookup id p.pending) ≡ true → Step opts p (end_request opts id p)
  gives_up :
      (id : ℕ) (mount_id : Bytes) {p : Peer S}
      → has (lookup id p.pending) ≡ true
      → Step opts p (cancel_request opts id mount_id p)
  receives :
      (outcome : SendOutcome) (frame : WireFrame) {p : Peer S}
      → Step opts p (receive opts frame.type outcome frame p)
  runs :
      (outcome : SendOutcome) (n : ℕ) (t : Task) {p : Peer S}
      → lookup n p.tasks ≡ some t
      → Step opts p (run_task opts outcome n t p)
  unmounts :
      (mount_id : Bytes) {p : Peer S}
      → contains p.unmounting mount_id ≡ true
      → Step opts p (run_unmount opts mount_id p)
  registers :
      (mount_id : Bytes) (backend : Backend S) {p : Peer S}
      → Step opts p (register mount_id backend p)
  unregisters : (mount_id : Bytes) {p : Peer S} → Step opts p (unregister mount_id p)
  closes : {p : Peer S} → Step opts p (close opts p)

-- What a peer can become, from its start.
pub data Reachable {S : Type 0} (opts : PeerOptions S) (base : ℕ) (s : S) : Peer S → Type 0 where
  starts : Reachable opts base s (start_peer base s)
  then_step : {p q : Peer S} → Reachable opts base s p → Step opts p q → Reachable opts base s q

-- Any number of steps.
pub data Run {S : Type 0} (opts : PeerOptions S) : Peer S → Peer S → Type 0 where
  stays : {p : Peer S} → Run opts p p
  goes : {p q r : Peer S} → Run opts p q → Step opts q r → Run opts p r

-- A property of the start that every step preserves holds of every reachable state.
pub Reachable-invariant :
    {S : Type 0} (opts : PeerOptions S) (base : ℕ) (s : S) (I : Peer S → Type 0)
    → I (start_peer base s)
    → ((p q : Peer S) → I p → Step opts p q → I q)
    → (p : Peer S) → Reachable opts base s p
    → I p
Reachable-invariant opts base s I start step _ starts = start
Reachable-invariant opts base s I start step _ (then_step {p = p} {q = q} r st) =
    step p q (Reachable-invariant opts base s I start step p r) st
