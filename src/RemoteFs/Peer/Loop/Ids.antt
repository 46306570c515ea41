-- ===== src/RemoteFs/Peer/Loop/Ids.antt =====
-- The ids of requests: those of the two sides never meet, and a response goes to its own request.
use sshx.Prelude.{
  ℕ, ◌+◌, ◌%◌, ◌<◌, ◌≡◌, refl, Bool, true, false, Option, none, some, nat_eq, eq_iff, All, arith,
  not, ◌&&◌, is_empty, if-holds, Option-holds, inl, inr, ltb, ◌⊎◌,
}
use sshx.Prelude.Map.{Map, lookup, insert, delete, has, lookup-insert, lookup-delete}
use sshx.RemoteFs.Frame.{WireFrame, FrameType, frame_request, frame_response, frame_cancel}
use sshx.RemoteFs.Peer.{PeerOptions}
use sshx.RemoteFs.Peer.Requests.{handle_request}
use sshx.RemoteFs.Peer.Loop.{
  Peer, Task, SendOutcome, written, failed, too_large, start_peer, begin_request, add_request,
  request_id, end_request, cancel_request, receive, receive_request, receive_response,
  receive_cancel, run_task, run_unmount, close, max_in_flight, send, send_response, forget,
}
use sshx.RemoteFs.Peer.Loop.Steps.{
  Step, begins, ends, gives_up, receives, runs, unmounts, registers, unregisters, closes, Reachable,
  Reachable-invariant, register, unregister,
}

abbrev pub is_request : FrameType → Bool
is_request frame_request = true
is_request kind = false

-- A request that is sent has an id of this side.
abbrev pub IsOwn : ℕ → WireFrame → Type 0
IsOwn base frame = is_request frame.type ≡ true → frame.id % 2 ≡ base

-- The channel of the request `id` is empty, or holds the response with this id.
abbrev pub Holds : ℕ → Option WireFrame → Type 0
Holds id none = Unit {0}
Holds id (some frame) = frame.id ≡ id

unfoldable pub AreOwn : ℕ → Map ℕ (Option WireFrame) → Type 0
AreOwn base pending =
    (id : ℕ) (o : Option WireFrame) → lookup id pending ≡ some o → (id % 2 ≡ base) × Holds id o

-- `base` is 1 for the side that connects and 0 for the one that accepts.
pub record HasIds {S : Type 0} (base : ℕ) (p : Peer S) : Type 0 where
  pub next : p.next_id % 2 ≡ base
  pub pending : AreOwn base p.pending
  pub sent : All (IsOwn base) p.sent

insert-cases :
    (k j : ℕ) (v o : Option WireFrame) (m : Map ℕ (Option WireFrame))
    → lookup j (insert k v m) ≡ some o
    → ((k ≡ j) × (v ≡ o)) ⊎ (lookup j m ≡ some o)
insert-cases k j v o m e = ground (arith, lookup-insert k j v m, eq_iff k j)

insert-AreOwn :
    (base id : ℕ) (v : Option WireFrame) (m : Map ℕ (Option WireFrame))
    → id % 2 ≡ base
    → Holds id v
    → AreOwn base m
    → AreOwn base (insert id v m)
unfolding AreOwn
insert-AreOwn base id v m e f h k o l = elim (insert-cases id k v o m l) [
  | inl (same, vo) ↦ rw (← same, ← vo) (e, f)
  | inr old ↦ h k o old
]

delete-AreOwn :
    (base id : ℕ) (m : Map ℕ (Option WireFrame)) → AreOwn base m → AreOwn base (delete id m)
unfolding AreOwn
delete-AreOwn base id m h k o l = h k o (ground (arith, lookup-delete id k m))

module _ {S : Type 0} (opts : PeerOptions S) (base : ℕ) where
  I : Peer S → Type 0
  I = HasIds base

  send-HasIds : (frame : WireFrame) (p : Peer S) → IsOwn base frame → I p → I (send opts frame p)
  unfolding send I
  send-HasIds frame p own h =
      if-holds (HasIds base) p.is_done (λ _. h)
        (λ _. record { next = h.next; pending = h.pending; sent = (own, h.sent) })

  close-HasIds : (p : Peer S) → I p → I (close opts p)
  unfolding close I
  close-HasIds p h =
      if-holds (HasIds base) p.is_done (λ _. h)
        (λ _. record { next = h.next; pending = h.pending; sent = h.sent })

  send_response-HasIds :
      (outcome : SendOutcome) (frame : WireFrame) (p : Peer S)
      → IsOwn base frame
      → I p
      → I (send_response opts outcome frame p)
  unfolding send_response
  send_response-HasIds written frame p own h = send-HasIds frame p own h
  send_response-HasIds (too_large text) frame p own h = send-HasIds _ p (λ e. cc) h
  send_response-HasIds failed frame p own h = close-HasIds p h

  add_request-HasIds : (p : Peer S) → I p → I (add_request opts p)
  unfolding add_request request_id I
  add_request-HasIds p h =
      let own : (p.next_id + 2) % 18446744073709551616 % 2 ≡ base = omega (arith, h.next) in
      record {
        next = own;
        pending =
            insert-AreOwn base ((p.next_id + 2) % 18446744073709551616) none p.pending own tt
              h.pending;
        sent = h.sent;
      }

  end_request-HasIds : (id : ℕ) (p : Peer S) → I p → I (end_request opts id p)
  unfolding end_request I
  end_request-HasIds id p h = record {
    next = h.next;
    pending = delete-AreOwn base id p.pending h.pending;
    sent = h.sent;
  }

  receive_response-HasIds :
      (frame : WireFrame) (p : Peer S) → I p → I (receive_response opts frame p)
  unfolding receive_response I AreOwn
  receive_response-HasIds frame p h =
      Option-holds (HasIds base) (lookup frame.id p.pending) (λ _. h)
        (λ waiting e.
          if-holds (HasIds base) (has waiting) (λ _. h)
            (λ _. record {
              next = h.next;
              pending =
                  insert-AreOwn base frame.id (some frame) p.pending
                    (h.pending frame.id waiting e).0 refl h.pending;
              sent = h.sent;
            }))

  receive_cancel-HasIds : (frame : WireFrame) (p : Peer S) → I p → I (receive_cancel opts frame p)
  unfolding receive_cancel I
  receive_cancel-HasIds frame p h =
      if-holds (HasIds base) (not (is_empty frame.mount_id) && has opts.on_unmount)
        (λ _. record { next = h.next; pending = h.pending; sent = h.sent })
        (λ _. record { next = h.next; pending = h.pending; sent = h.sent })

  receive_request-HasIds :
      (outcome : SendOutcome) (frame : WireFrame) (p : Peer S)
      → I p
      → I (receive_request opts outcome frame p)
  unfolding receive_request I
  receive_request-HasIds outcome frame p h =
      if-holds (HasIds base) (ltb p.in_flight max_in_flight)
        (λ _. record { next = h.next; pending = h.pending; sent = h.sent })
        (λ _. unfold I in send_response-HasIds outcome _ p (λ e. cc) h)

  receive-HasIds :
      (kind : FrameType) (outcome : SendOutcome) (frame : WireFrame) (p : Peer S)
      → I p
      → I (receive opts kind outcome frame p)
  unfolding receive
  receive-HasIds frame_response outcome frame p h = receive_response-HasIds frame p h
  receive-HasIds frame_cancel outcome frame p h = receive_cancel-HasIds frame p h
  receive-HasIds frame_request outcome frame p h = receive_request-HasIds outcome frame p h
  receive-HasIds kind outcome frame p h = close-HasIds p h

  forget-HasIds : (n : ℕ) (t : Task) (p : Peer S) → I p → I (forget opts n t p)
  unfolding I
  forget-HasIds n t p h = record { next = h.next; pending = h.pending; sent = h.sent }

  run_task-HasIds :
      (outcome : SendOutcome) (n : ℕ) (t : Task) (p : Peer S)
      → I p
      → I (run_task opts outcome n t p)
  unfolding run_task
  run_task-HasIds outcome n t p h =
      let ((exports, s), response) = handle_request opts (p.exports, p.state) t.request in
      let p' : Peer S = record p { exports = exports; state = s } in
      let kept : I p' = unfold I in record { next = h.next; pending = h.pending; sent = h.sent } in
      forget-HasIds n t _
        (if-holds I t.canceled (λ _. kept) (λ _. send_response-HasIds outcome _ p' (λ e. cc) kept))

  step-HasIds : (p q : Peer S) → I p → Step opts p q → I q
  unfolding begin_request cancel_request run_unmount register unregister I
  step-HasIds p _ h (begins q l) =
      let added = add_request-HasIds p h in
      send-HasIds (record q { type = frame_request; id = request_id opts p }) (add_request opts p)
        (λ _. unfold add_request in added.next) added
  step-HasIds p _ h (ends id l) = end_request-HasIds id p h
  step-HasIds p _ h (gives_up id mount_id l) = end_request-HasIds id _ (send-HasIds _ p (λ e. cc) h)
  step-HasIds p _ h (receives outcome frame) = receive-HasIds frame.type outcome frame p h
  step-HasIds p _ h (runs outcome n t l) = run_task-HasIds outcome n t p h
  step-HasIds p _ h (unmounts mount_id l) = record {
    next = h.next;
    pending = h.pending;
    sent = h.sent;
  }
  step-HasIds p _ h (registers mount_id backend) = record {
    next = h.next;
    pending = h.pending;
    sent = h.sent;
  }
  step-HasIds p _ h (unregisters mount_id) = record {
    next = h.next;
    pending = h.pending;
    sent = h.sent;
  }
  step-HasIds p _ h closes = close-HasIds p h

start-HasIds : {S : Type 0} (base : ℕ) (s : S) → base < 2 → HasIds base (start_peer base s)
unfolding start_peer AreOwn lookup
start-HasIds base s l = record { next = omega (arith, l); pending = λ id o e. cc; sent = tt }

-- In every reachable state the requests of the side that connects have odd ids and those of the side
-- that accepts even ids, the wrap-around of 64 bits included, and a response that waits for a request
-- of this side is the response to that request.
pub Reachable-HasIds :
    {S : Type 0} (opts : PeerOptions S) (base : ℕ) (s : S) (p : Peer S)
    → base < 2
    → Reachable opts base s p
    → HasIds base p
unfolding I
Reachable-HasIds opts base s p l =
    Reachable-invariant opts base s (HasIds base) (start-HasIds base s l) (step-HasIds opts base) p
