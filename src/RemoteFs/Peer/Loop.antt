-- ===== src/RemoteFs/Peer/Loop.antt =====
-- internal/remotefs/peer.go: the requests in both directions, `readLoop` and `close`, as steps on the
-- state of a peer. Goroutines are the tasks of the state: a step is what one of them does between two
-- points where another may run.
pub mod Steps
pub mod Tasks
pub mod Counted
pub mod Ids
pub mod Shut
pub mod Closed
pub mod Drains
use sshx.Prelude.{
  ℕ, ◌+◌, ◌-◌, ◌%◌, ◌^◌, Bool, true, false, not, ◌&&◌, Option, none, some, List, [], ◌∷◌, is_empty,
  if◌then◌else◌, ◌==◌, bytes_eq, nat_eq, ltb,
}
use sshx.Prelude.Text.{Bytes, codes}
use sshx.Prelude.Map.{Map, lookup, insert, delete, values, has}
use sshx.Prelude.Set.{add, remove}
use sshx.RemoteFs.{Error, ErrorCode, error_busy, error_too_large}
use sshx.RemoteFs.Os.{Backend}
use sshx.RemoteFs.Frame.{
  WireFrame, FrameType, zero_frame, frame_request, frame_response, frame_cancel, frame_hello,
  frame_hello_ok, other_frame,
}
use sshx.RemoteFs.Peer.{Exports, PeerOptions}
use sshx.RemoteFs.Peer.Requests.{handle_request, undo_mount}

abbrev pub max_in_flight : ℕ
max_in_flight = 64

-- A goroutine that answers a request, and whether its context is canceled.
pub record Task : Type 0 where
  pub request : WireFrame
  pub canceled : Bool

-- `Peer`. `pending` has, for each request of this side, the buffered channel of its response. `active`
-- names the task whose context the `cancel` of a request's id ends. `tasks` are the goroutines of
-- `readLoop` that answer requests, under numbers that only grow, and `unmounting` those that undo a
-- mount. `sent` are the frames written, the latest first.
pub record Peer (S : Type 0) : Type 0 where
  pub next_id : ℕ
  pub pending : Map ℕ (Option WireFrame)
  pub active : Map ℕ ℕ
  pub in_flight : ℕ
  pub outgoing : ℕ
  pub exports : Exports S
  pub is_done : Bool
  pub tasks : Map ℕ Task
  pub next_task : ℕ
  pub unmounting : List Bytes
  pub sent : List WireFrame
  pub state : S

abbrev pub no_exports : {S : Type 0} → Exports S
no_exports = record { backends = []; backend_closed = false; mounts = []; mount_closed = false }

-- `startPeer`: the base is 1 for the side that connects and 0 for the one that accepts.
unfoldable pub start_peer : {S : Type 0} → ℕ → S → Peer S
start_peer base s = record {
  next_id = base;
  pending = [];
  active = [];
  in_flight = 0;
  outgoing = 0;
  exports = no_exports;
  is_done = false;
  tasks = [];
  next_task = 0;
  unmounting = [];
  sent = [];
  state = s;
}

abbrev pub cancel : Task → Task
cancel t = record t { canceled = true }

-- `cancel()` of one task.
abbrev pub cancel_task : ℕ → Map ℕ Task → Map ℕ Task
cancel_task n [] = []
cancel_task n ((k, t) ∷ tasks) = (k, if k == n then cancel t else t) ∷ cancel_task n tasks

abbrev pub cancel_active : Map ℕ ℕ → Map ℕ Task → Map ℕ Task
cancel_active [] tasks = tasks
cancel_active ((id, n) ∷ active) tasks = cancel_active active (cancel_task n tasks)

-- What writing a frame ends with; a frame that is too large has the text of that error.
pub data SendOutcome : Type 0 where
  written failed : SendOutcome
  too_large : Bytes → SendOutcome

module _ {S : Type 0} (opts : PeerOptions S) where
  unfoldable pub close_backends : List (Backend S) → S → S
  close_backends [] s = s
  close_backends (b ∷ bs) s = close_backends bs (b.close_backend s).0

  unfoldable pub undo_mounts : List Bytes → S → S
  unfolding undo_mount
  undo_mounts [] s = s
  undo_mounts (m ∷ ms) s = undo_mounts ms (undo_mount opts m s)

  -- `close`, once. Go closes the exports and undoes the mounts in any order, the model in that of
  -- its lists.
  unfoldable pub close : Peer S → Peer S
  unfolding close_backends undo_mounts
  close p = if p.is_done then p else record p {
    active = [];
    tasks = cancel_active p.active p.tasks;
    exports = record { backends = []; backend_closed = true; mounts = []; mount_closed = true };
    is_done = true;
    state = undo_mounts p.exports.mounts (close_backends (values p.exports.backends) p.state);
  }

  -- `send`: nothing is written once the peer is done.
  unfoldable pub send : WireFrame → Peer S → Peer S
  send frame p = if p.is_done then p else record p { sent = frame ∷ p.sent }

  -- `sendResponse`
  unfoldable pub send_response : SendOutcome → WireFrame → Peer S → Peer S
  unfolding close send
  send_response written response p = send response p
  send_response (too_large text) response p =
      send
        (record zero_frame {
          type = frame_response;
          id = response.id;
          error_code = error_too_large;
          error = text;
        })
        p
  send_response failed response p = close p

  -- The atomic `nextID.Add(2)`, on 64 bits.
  unfoldable pub request_id : Peer S → ℕ
  request_id p = (p.next_id + 2) % 2 ^ 64

  -- A slot, an id, and an entry for the response.
  unfoldable pub add_request : Peer S → Peer S
  unfolding request_id
  add_request p = record p {
    outgoing = p.outgoing + 1;
    next_id = request_id p;
    pending = insert (request_id p) none p.pending;
  }

  -- `request`, up to the wait.
  unfoldable pub begin_request : WireFrame → Peer S → Peer S
  unfolding send request_id add_request
  begin_request q p = send (record q { type = frame_request; id = request_id p }) (add_request p)

  -- The end of `request`, with the response or without: the entry and the slot are given back.
  unfoldable pub end_request : ℕ → Peer S → Peer S
  end_request id p = record p { outgoing = p.outgoing - 1; pending = delete id p.pending }

  -- A caller whose context ends tells the other side.
  unfoldable pub cancel_request : ℕ → Bytes → Peer S → Peer S
  unfolding send end_request
  cancel_request id mount_id p =
      end_request id
        (send (record zero_frame { type = frame_cancel; id = id; mount_id = mount_id }) p)

  unfoldable pub receive_response : WireFrame → Peer S → Peer S
  receive_response frame p = elim (lookup frame.id p.pending) [
    | none ↦ p
    | some waiting ↦
        if has waiting then p else record p { pending = insert frame.id (some frame) p.pending }
  ]

  abbrev pub cancel_id : ℕ → Peer S → Map ℕ Task
  cancel_id id p = elim (lookup id p.active) [ none ↦ p.tasks | some n ↦ cancel_task n p.tasks ]

  unfoldable pub receive_cancel : WireFrame → Peer S → Peer S
  receive_cancel frame p =
      let p' = record p { tasks = cancel_id frame.id p } in
      if not (is_empty frame.mount_id) && has opts.on_unmount
      then record p' {
        exports = record p.exports { mounts = remove frame.mount_id p.exports.mounts };
        unmounting = frame.mount_id ∷ p.unmounting;
      }
      else p'

  unfoldable pub receive_request : SendOutcome → WireFrame → Peer S → Peer S
  unfolding send_response
  receive_request outcome frame p =
      if ltb p.in_flight max_in_flight
      then record p {
        in_flight = p.in_flight + 1;
        active = insert frame.id p.next_task p.active;
        tasks = insert p.next_task (record { request = frame; canceled = false }) p.tasks;
        next_task = p.next_task + 1;
      }
      else send_response outcome
          (record zero_frame {
            type = frame_response;
            id = frame.id;
            error_code = error_busy;
            error = codes "too many remote fs requests";
          })
          p

  -- One turn of `readLoop`, for the type of the frame.
  unfoldable pub receive : FrameType → SendOutcome → WireFrame → Peer S → Peer S
  unfolding receive_response receive_cancel receive_request close
  receive frame_response outcome frame p = receive_response frame p
  receive frame_cancel outcome frame p = receive_cancel frame p
  receive frame_request outcome frame p = receive_request outcome frame p
  receive kind outcome frame p = close p

  -- The deferred end of a task.
  abbrev pub forget : ℕ → Task → Peer S → Peer S
  forget n t p = record p {
    active = delete t.request.id p.active;
    tasks = delete n p.tasks;
    in_flight = p.in_flight - 1;
  }

  -- A task runs its handler, answers if its context has not ended, and ends.
  unfoldable pub run_task : SendOutcome → ℕ → Task → Peer S → Peer S
  unfolding send_response handle_request
  run_task outcome n t p =
      let ((exports, s), response) = handle_request opts (p.exports, p.state) t.request in
      let p' = record p { exports = exports; state = s } in
      forget n t (
        if t.canceled
        then p'
        else send_response outcome (record response { type = frame_response; id = t.request.id })
            p')

  -- A goroutine that undoes a mount.
  unfoldable pub run_unmount : Bytes → Peer S → Peer S
  unfolding undo_mount
  run_unmount mount_id p = record p {
    unmounting = remove mount_id p.unmounting;
    state = undo_mount opts mount_id p.state;
  }
