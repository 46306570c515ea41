-- ===== src/RemoteFs/Peer/Loop/Counted.antt =====
-- How many requests a peer works on: never more than 64 in each direction, in any order of events.
use sshx.Prelude.{
  ℕ, ◌<◌, ◌≤◌, ◌≡◌, true, false, some, nat_eq, arith, ltb, ltb→lt, if-holds, Option-holds, is_empty,
  not, ◌&&◌, length, none,
}
use sshx.Prelude.Map.{lookup, has, length-insert_le, length-insert_held, length-delete_lt}
use sshx.RemoteFs.Frame.{WireFrame, FrameType, frame_request, frame_response, frame_cancel}
use sshx.RemoteFs.Peer.{PeerOptions}
use sshx.RemoteFs.Peer.Requests.{handle_request}
use sshx.RemoteFs.Peer.Loop.{
  Peer, Task, SendOutcome, written, failed, too_large, start_peer, begin_request, add_request,
  request_id, end_request, cancel_request, receive, receive_request, receive_response,
  receive_cancel, run_task, run_unmount, close, max_in_flight, send, send_response, cancel_id,
  forget,
}
use sshx.RemoteFs.Peer.Loop.Tasks.{
  Numbered, cancel_task-Numbered, cancel_active-Numbered, insert-Numbered, delete-Numbered,
  no_tasks-Numbered, cancel_active-lookup, has-some,
}
use sshx.RemoteFs.Peer.Loop.Steps.{
  Step, begins, ends, gives_up, receives, runs, unmounts, registers, unregisters, closes, Reachable,
  Reachable-invariant, register, unregister,
}

-- Both directions have 64 slots. Each request that waits for its response has one, and each request
-- that is being answered.
pub record IsCounted {S : Type 0} (p : Peer S) : Type 0 where
  pub slots : p.outgoing ≤ 64
  pub room : p.in_flight ≤ 64
  pub awaited : length p.pending ≤ p.outgoing
  pub numbered : Numbered p.next_task p.in_flight p.tasks

start-IsCounted : {S : Type 0} (base : ℕ) (s : S) → IsCounted (start_peer base s)
unfolding start_peer
start-IsCounted base s = record {
  slots = omega arith;
  room = omega arith;
  awaited = omega arith;
  numbered = no_tasks-Numbered;
}

module _ {S : Type 0} (opts : PeerOptions S) where
  send-IsCounted : (frame : WireFrame) (p : Peer S) → IsCounted p → IsCounted (send opts frame p)
  unfolding send
  send-IsCounted frame p h =
      if-holds IsCounted p.is_done (λ _. h)
        (λ _. record { slots = h.slots; room = h.room; awaited = h.awaited; numbered = h.numbered })

  send_pending : (frame : WireFrame) (p : Peer S) → (send opts frame p).pending ≡ p.pending
  unfolding send
  send_pending frame p = ground arith

  close-IsCounted : (p : Peer S) → IsCounted p → IsCounted (close opts p)
  unfolding close
  close-IsCounted p h =
      if-holds IsCounted p.is_done (λ _. h)
        (λ _. record {
          slots = h.slots;
          room = h.room;
          awaited = h.awaited;
          numbered = cancel_active-Numbered p.active p.next_task p.in_flight p.tasks h.numbered;
        })

  send_response-IsCounted :
      (outcome : SendOutcome) (frame : WireFrame) (p : Peer S)
      → IsCounted p
      → IsCounted (send_response opts outcome frame p)
  unfolding send_response
  send_response-IsCounted written frame p h = send-IsCounted frame p h
  send_response-IsCounted (too_large text) frame p h = send-IsCounted _ p h
  send_response-IsCounted failed frame p h = close-IsCounted p h

  end_request-IsCounted :
      (id : ℕ) (p : Peer S)
      → has (lookup id p.pending) ≡ true
      → IsCounted p
      → IsCounted (end_request opts id p)
  unfolding end_request
  end_request-IsCounted id p l h = record {
    awaited = omega (arith, h.awaited, length-delete_lt id p.pending l);
    slots = omega (arith, h.slots);
    room = h.room;
    numbered = h.numbered;
  }

  cancel_id-Numbered :
      (id : ℕ) (p : Peer S) → IsCounted p → Numbered p.next_task p.in_flight (cancel_id opts id p)
  cancel_id-Numbered id p h =
      Option-holds (Numbered p.next_task p.in_flight) (lookup id p.active) (λ _. h.numbered)
        (λ n _. cancel_task-Numbered n p.next_task p.in_flight p.tasks h.numbered)

  receive_response-IsCounted :
      (frame : WireFrame) (p : Peer S) → IsCounted p → IsCounted (receive_response opts frame p)
  unfolding receive_response
  receive_response-IsCounted frame p h =
      Option-holds IsCounted (lookup frame.id p.pending) (λ _. h)
        (λ waiting e.
          if-holds IsCounted (has waiting) (λ _. h)
            (λ _. record {
              slots = h.slots;
              room = h.room;
              awaited =
                  omega
                    (arith, h.awaited, length-insert_held frame.id (some frame) p.pending (rw e));
              numbered = h.numbered;
            }))

  receive_cancel-IsCounted :
      (frame : WireFrame) (p : Peer S) → IsCounted p → IsCounted (receive_cancel opts frame p)
  unfolding receive_cancel
  receive_cancel-IsCounted frame p h =
      let canceled = cancel_id-Numbered frame.id p h in
      if-holds IsCounted (not (is_empty frame.mount_id) && has opts.on_unmount)
        (λ _. record { slots = h.slots; room = h.room; awaited = h.awaited; numbered = canceled })
        (λ _. record { slots = h.slots; room = h.room; awaited = h.awaited; numbered = canceled })

  receive_request-IsCounted :
      (outcome : SendOutcome) (frame : WireFrame) (p : Peer S)
      → IsCounted p
      → IsCounted (receive_request opts outcome frame p)
  unfolding receive_request
  receive_request-IsCounted outcome frame p h =
      if-holds IsCounted (ltb p.in_flight max_in_flight)
        (λ e.
          let free : p.in_flight < 64 = ltb→lt p.in_flight 64 e in
          record {
            slots = h.slots;
            awaited = h.awaited;
            room = omega (arith, free);
            numbered =
                insert-Numbered p.next_task p.in_flight
                  (record { request = frame; canceled = false }) p.tasks h.numbered;
          })
        (λ _. send_response-IsCounted outcome _ p h)

  receive-IsCounted :
      (kind : FrameType) (outcome : SendOutcome) (frame : WireFrame) (p : Peer S)
      → IsCounted p
      → IsCounted (receive opts kind outcome frame p)
  unfolding receive
  receive-IsCounted frame_response outcome frame p h = receive_response-IsCounted frame p h
  receive-IsCounted frame_cancel outcome frame p h = receive_cancel-IsCounted frame p h
  receive-IsCounted frame_request outcome frame p h = receive_request-IsCounted outcome frame p h
  receive-IsCounted kind outcome frame p h = close-IsCounted p h

  -- A task stays in the table until it is forgotten.
  IsWorking : ℕ → Peer S → Type 0
  IsWorking n p = IsCounted p × (has (lookup n p.tasks) ≡ true)

  send-IsWorking :
      (n : ℕ) (frame : WireFrame) (p : Peer S) → IsWorking n p → IsWorking n (send opts frame p)
  unfolding IsWorking send
  send-IsWorking n frame p (h, e) = (
    send-IsCounted frame p h,
    if-holds {A = Peer S} (λ q. has (lookup n q.tasks) ≡ true) p.is_done (λ _. e) (λ _. e),
  )

  close-IsWorking : (n : ℕ) (p : Peer S) → IsWorking n p → IsWorking n (close opts p)
  unfolding IsWorking close
  close-IsWorking n p (h, e) = (
    close-IsCounted p h,
    if-holds {A = Peer S} (λ q. has (lookup n q.tasks) ≡ true) p.is_done (λ _. e)
        (λ _. rw (cancel_active-lookup p.active n p.tasks) e),
  )

  send_response-IsWorking :
      (n : ℕ) (outcome : SendOutcome) (frame : WireFrame) (p : Peer S)
      → IsWorking n p
      → IsWorking n (send_response opts outcome frame p)
  unfolding send_response
  send_response-IsWorking n written frame p h = send-IsWorking n frame p h
  send_response-IsWorking n (too_large text) frame p h = send-IsWorking n _ p h
  send_response-IsWorking n failed frame p h = close-IsWorking n p h

  forget-IsCounted : (n : ℕ) (t : Task) (p : Peer S) → IsWorking n p → IsCounted (forget opts n t p)
  unfolding IsWorking
  forget-IsCounted n t p (h, e) =
      let (t', l) = has-some (lookup n p.tasks) e in
      record {
        slots = h.slots;
        awaited = h.awaited;
        room = omega (arith, h.room);
        numbered = delete-Numbered n p.next_task p.in_flight t' p.tasks l h.numbered;
      }

  pub run_task-IsCounted :
      (outcome : SendOutcome) (n : ℕ) (t : Task) (p : Peer S)
      → lookup n p.tasks ≡ some t
      → IsCounted p
      → IsCounted (run_task opts outcome n t p)
  unfolding run_task IsWorking
  run_task-IsCounted outcome n t p l h =
      let ((exports, s), response) = handle_request opts (p.exports, p.state) t.request in
      let p' : Peer S = record p { exports = exports; state = s } in
      let working : IsWorking n p' = (
        record { slots = h.slots; room = h.room; awaited = h.awaited; numbered = h.numbered },
        rw l,
      ) in
      forget-IsCounted n t _ (
        if-holds (IsWorking n) t.canceled (λ _. working)
          (λ _. send_response-IsWorking n outcome _ p' working))

  add_request-IsCounted :
      (p : Peer S) → p.outgoing < max_in_flight → IsCounted p → IsCounted (add_request opts p)
  unfolding add_request
  add_request-IsCounted p l h = record {
    slots = omega (arith, l);
    awaited = omega (arith, h.awaited, length-insert_le (request_id opts p) none p.pending);
    room = h.room;
    numbered = h.numbered;
  }

  step-IsCounted : (p q : Peer S) → IsCounted p → Step opts p q → IsCounted q
  unfolding begin_request cancel_request run_unmount register unregister
  step-IsCounted p _ h (begins q l) =
      send-IsCounted (record q { type = frame_request; id = request_id opts p })
        (add_request opts p) (add_request-IsCounted p l h)
  step-IsCounted p _ h (ends id l) = end_request-IsCounted id p l h
  step-IsCounted p _ h (gives_up id mount_id l) =
      end_request-IsCounted id _ (rw (send_pending _ p) l) (send-IsCounted _ p h)
  step-IsCounted p _ h (receives outcome frame) = receive-IsCounted frame.type outcome frame p h
  step-IsCounted p _ h (runs outcome n t l) = run_task-IsCounted outcome n t p l h
  step-IsCounted p _ h (unmounts mount_id l) = record {
    slots = h.slots;
    room = h.room;
    awaited = h.awaited;
    numbered = h.numbered;
  }
  step-IsCounted p _ h (registers mount_id backend) = record {
    slots = h.slots;
    room = h.room;
    awaited = h.awaited;
    numbered = h.numbered;
  }
  step-IsCounted p _ h (unregisters mount_id) = record {
    slots = h.slots;
    room = h.room;
    awaited = h.awaited;
    numbered = h.numbered;
  }
  step-IsCounted p _ h closes = close-IsCounted p h

-- In every reachable state of a peer its own requests that wait for a response are at most as many as
-- the slots that are taken, which are at most 64, and it answers at most 64 requests of the other side,
-- each of which has a task of its own.
pub Reachable-IsCounted :
    {S : Type 0} (opts : PeerOptions S) (base : ℕ) (s : S) (p : Peer S)
    → Reachable opts base s p
    → IsCounted p
Reachable-IsCounted opts base s =
    Reachable-invariant opts base s IsCounted (start-IsCounted base s) (step-IsCounted opts)
