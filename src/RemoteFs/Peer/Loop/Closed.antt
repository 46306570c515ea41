-- ===== src/RemoteFs/Peer/Loop/Closed.antt =====
-- A closed peer: nothing is exported or mounted any more, and nothing is sent, whatever still runs.
use sshx.Prelude.{
  ℕ, ◌≡◌, ◌≢◌, refl, Bool, true, false, List, bytes_eq, nat_eq, arith, not, ◌&&◌, is_empty,
  if-holds, Option-holds, ltb,
}
use sshx.Prelude.Map.{lookup, has}
use sshx.Prelude.Set.{remove}
use sshx.RemoteFs.Frame.{WireFrame, FrameType, frame_request, frame_response, frame_cancel}
use sshx.RemoteFs.Peer.{PeerOptions}
use sshx.RemoteFs.Peer.Requests.{handle_request}
use sshx.RemoteFs.Peer.Loop.Shut.{
  IsShut, handle_request-IsShut, register_backend-IsShut, unregister_backend-IsShut,
}
use sshx.RemoteFs.Peer.Loop.{
  Peer, Task, SendOutcome, written, failed, too_large, begin_request, add_request, end_request,
  cancel_request, receive, receive_request, receive_response, receive_cancel, run_task, run_unmount,
  close, max_in_flight, send, send_response, forget,
}
use sshx.RemoteFs.Peer.Loop.Steps.{
  Step, begins, ends, gives_up, receives, runs, unmounts, registers, unregisters, closes, Run,
  stays, goes, register, unregister,
}

-- The peer is done, nothing is exported, and `sent` is all that it has sent.
pub record IsOver {S : Type 0} (sent : List WireFrame) (p : Peer S) : Type 0 where
  pub finished : p.is_done ≡ true
  pub shut : IsShut p.exports
  pub quiet : p.sent ≡ sent

done_or : (b : Bool) → b ≡ true → b ≢ false
done_or b h e = ground arith

module _ {S : Type 0} (opts : PeerOptions S) (sent : List WireFrame) where
  send-IsOver : (frame : WireFrame) (p : Peer S) → IsOver sent p → IsOver sent (send opts frame p)
  unfolding send
  send-IsOver frame p h =
      if-holds (IsOver sent) p.is_done (λ _. h) (λ e. absurd (done_or p.is_done h.finished e))

  close-IsOver : (p : Peer S) → IsOver sent p → IsOver sent (close opts p)
  unfolding close
  close-IsOver p h =
      if-holds (IsOver sent) p.is_done (λ _. h) (λ e. absurd (done_or p.is_done h.finished e))

  send_response-IsOver :
      (outcome : SendOutcome) (frame : WireFrame) (p : Peer S)
      → IsOver sent p
      → IsOver sent (send_response opts outcome frame p)
  unfolding send_response
  send_response-IsOver written frame p h = send-IsOver frame p h
  send_response-IsOver (too_large text) frame p h = send-IsOver _ p h
  send_response-IsOver failed frame p h = close-IsOver p h

  add_request-IsOver : (p : Peer S) → IsOver sent p → IsOver sent (add_request opts p)
  unfolding add_request
  add_request-IsOver p h = record { finished = h.finished; shut = h.shut; quiet = h.quiet }

  end_request-IsOver : (id : ℕ) (p : Peer S) → IsOver sent p → IsOver sent (end_request opts id p)
  unfolding end_request
  end_request-IsOver id p h = record { finished = h.finished; shut = h.shut; quiet = h.quiet }

  receive_response-IsOver :
      (frame : WireFrame) (p : Peer S) → IsOver sent p → IsOver sent (receive_response opts frame p)
  unfolding receive_response
  receive_response-IsOver frame p h =
      Option-holds (IsOver sent) (lookup frame.id p.pending) (λ _. h)
        (λ waiting _.
          if-holds (IsOver sent) (has waiting) (λ _. h)
            (λ _. record { finished = h.finished; shut = h.shut; quiet = h.quiet }))

  receive_cancel-IsOver :
      (frame : WireFrame) (p : Peer S) → IsOver sent p → IsOver sent (receive_cancel opts frame p)
  unfolding receive_cancel
  receive_cancel-IsOver frame p h =
      if-holds (IsOver sent) (not (is_empty frame.mount_id) && has opts.on_unmount)
        (λ _. record {
          finished = h.finished;
          shut = record {
            no_backends = h.shut.no_backends;
            backends_closed = h.shut.backends_closed;
            no_mounts = rw h.shut.no_mounts (unfold remove in refl);
            mounts_closed = h.shut.mounts_closed;
          };
          quiet = h.quiet;
        })
        (λ _. record { finished = h.finished; shut = h.shut; quiet = h.quiet })

  receive_request-IsOver :
      (outcome : SendOutcome) (frame : WireFrame) (p : Peer S)
      → IsOver sent p
      → IsOver sent (receive_request opts outcome frame p)
  unfolding receive_request
  receive_request-IsOver outcome frame p h =
      if-holds (IsOver sent) (ltb p.in_flight max_in_flight)
        (λ _. record { finished = h.finished; shut = h.shut; quiet = h.quiet })
        (λ _. send_response-IsOver outcome _ p h)

  receive-IsOver :
      (kind : FrameType) (outcome : SendOutcome) (frame : WireFrame) (p : Peer S)
      → IsOver sent p
      → IsOver sent (receive opts kind outcome frame p)
  unfolding receive
  receive-IsOver frame_response outcome frame p h = receive_response-IsOver frame p h
  receive-IsOver frame_cancel outcome frame p h = receive_cancel-IsOver frame p h
  receive-IsOver frame_request outcome frame p h = receive_request-IsOver outcome frame p h
  receive-IsOver kind outcome frame p h = close-IsOver p h

  forget-IsOver : (n : ℕ) (t : Task) (p : Peer S) → IsOver sent p → IsOver sent (forget opts n t p)
  forget-IsOver n t p h = record { finished = h.finished; shut = h.shut; quiet = h.quiet }

  run_task-IsOver :
      (outcome : SendOutcome) (n : ℕ) (t : Task) (p : Peer S)
      → IsOver sent p
      → IsOver sent (run_task opts outcome n t p)
  unfolding run_task
  run_task-IsOver outcome n t p h =
      let ((exports, s), response) = handle_request opts (p.exports, p.state) t.request in
      let p' : Peer S = record p { exports = exports; state = s } in
      let kept : IsOver sent p' = record {
        finished = h.finished;
        shut = handle_request-IsShut opts p.exports p.state t.request h.shut;
        quiet = h.quiet;
      } in
      forget-IsOver n t _ (
        if-holds (IsOver sent) t.canceled (λ _. kept) (λ _. send_response-IsOver outcome _ p' kept))

  step-IsOver : (p q : Peer S) → IsOver sent p → Step opts p q → IsOver sent q
  unfolding begin_request cancel_request run_unmount register unregister
  step-IsOver p _ h (begins q l) = send-IsOver _ (add_request opts p) (add_request-IsOver p h)
  step-IsOver p _ h (ends id l) = end_request-IsOver id p h
  step-IsOver p _ h (gives_up id mount_id l) = end_request-IsOver id _ (send-IsOver _ p h)
  step-IsOver p _ h (receives outcome frame) = receive-IsOver frame.type outcome frame p h
  step-IsOver p _ h (runs outcome n t l) = run_task-IsOver outcome n t p h
  step-IsOver p _ h (unmounts mount_id l) = record {
    finished = h.finished;
    shut = h.shut;
    quiet = h.quiet;
  }
  step-IsOver p _ h (registers mount_id backend) = record {
    finished = h.finished;
    shut = register_backend-IsShut mount_id backend p.exports h.shut;
    quiet = h.quiet;
  }
  step-IsOver p _ h (unregisters mount_id) = record {
    finished = h.finished;
    shut = unregister_backend-IsShut mount_id p.exports p.state h.shut;
    quiet = h.quiet;
  }
  step-IsOver p _ h closes = close-IsOver p h

  run-IsOver : (p q : Peer S) → IsOver sent p → Run opts p q → IsOver sent q
  run-IsOver p _ h stays = h
  run-IsOver p _ h (goes {q = q} {r = r} run step) = step-IsOver q r (run-IsOver p q h run) step

closed :
    {S : Type 0} (opts : PeerOptions S) (p : Peer S)
    → p.is_done ≡ false
    → IsOver p.sent (close opts p)
unfolding close
closed opts p e =
    if-holds (IsOver p.sent) p.is_done (λ d. absurd (done_or p.is_done d e))
      (λ _. record {
        finished = refl;
        shut = record {
          no_backends = refl;
          backends_closed = refl;
          no_mounts = refl;
          mounts_closed = refl;
        };
        quiet = refl;
      })

-- Once a peer has closed, whatever its goroutines, its callers and the other side still do, nothing is
-- exported, no mount is kept, the peer stays closed, and it sends no further frame.
pub close_is_final :
    {S : Type 0} (opts : PeerOptions S) (p q : Peer S)
    → p.is_done ≡ false
    → Run opts (close opts p) q
    → IsOver p.sent q
close_is_final opts p q e = run-IsOver opts p.sent (close opts p) q (closed opts p e)
