-- ===== src/RemoteFs/Peer/Remote.antt =====
-- internal/remotefs/peer_backend.go: the exports of the other side as a `Backend`, and how `request`
-- of peer.go reads an answer.
use sshx.Prelude.{ℕ, Option, none, some, is_empty, if◌then◌else◌}
use sshx.Prelude.Text.{Bytes}
use sshx.RemoteFs.{
  Error, ErrorCode, error_none, error_too_large, no_error, errno, unknown, error_from_code,
}
use sshx.RemoteFs.Effect.{Result, ok, err, Action}
use sshx.RemoteFs.Os.{Backend}
use sshx.RemoteFs.Frame.{
  WireFrame, zero_frame, frame_request, frame_response, op_lookup, op_readdir, op_open, op_close,
  op_read, op_write, op_fsync, op_mkdir, op_unlink, op_rmdir, op_rename, op_link, op_symlink,
  op_readlink, op_setattr, op_statfs,
}
use sshx.RemoteFs.Peer.{Exports, PeerOptions}
use sshx.RemoteFs.Peer.Requests.{handle_request}

-- The error that an answer stands for: by its code, else by its text.
unfoldable pub error_of_answer : ErrorCode → Bytes → Error
error_of_answer error_none text = if is_empty text then no_error else unknown
error_of_answer code text = errno (error_from_code code)

-- What `request` returns for a response: the frame, and its error.
unfoldable pub answer : WireFrame → WireFrame × Error
unfolding error_of_answer
answer response = (response, error_of_answer response.error_code response.error)

-- A value beside an error, as a caller takes it.
unfoldable pub taken : {A : Type 0} → A → Error → Result A
taken a no_error = ok a
taken a e = err e

module _ {S : Type 0} (request : WireFrame → S → S × (WireFrame × Error)) (mount_id : Bytes) where
  -- A call, and the field of the response that it returns.
  unfoldable pub call : {A : Type 0} → WireFrame → (WireFrame → A) → Action S A
  unfolding taken
  call frame field s =
      let (s', (response, e)) = request (record frame { mount_id = mount_id }) s in
      (s', taken (field response) e)

  unfoldable pub call_both : {A : Type 0} → WireFrame → (WireFrame → A) → S → S × (A × Error)
  call_both frame field s =
      let (s', (response, e)) = request (record frame { mount_id = mount_id }) s in
      (s', (field response, e))

  unfoldable pub remote_backend : Backend S
  unfolding call call_both
  remote_backend = record {
    lookup = λ path. call (record zero_frame { op = op_lookup; path = path }) (λ f. f.attr);
    read_dir = λ path. call (record zero_frame { op = op_readdir; path = path }) (λ f. f.entries);
    open_handle = λ path flags mode.
        call (record zero_frame { op = op_open; path = path; open_flags = flags; mode = mode })
          (λ f. (f.handle, f.attr));
    close = λ handle. call (record zero_frame { op = op_close; handle = handle }) (λ _. tt);
    read = λ handle offset size.
        call_both
          (record zero_frame { op = op_read; handle = handle; offset = offset; size = size })
          (λ f. f.bytes);
    write = λ handle offset bytes.
        call_both
          (record zero_frame { op = op_write; handle = handle; offset = offset; bytes = bytes })
          (λ f. f.size);
    fsync = λ handle. call (record zero_frame { op = op_fsync; handle = handle }) (λ _. tt);
    mkdir = λ path mode.
        call (record zero_frame { op = op_mkdir; path = path; mode = mode }) (λ f. f.attr);
    unlink = λ path. call (record zero_frame { op = op_unlink; path = path }) (λ _. tt);
    rmdir = λ path. call (record zero_frame { op = op_rmdir; path = path }) (λ _. tt);
    rename = λ old_path new_path.
        call (record zero_frame { op = op_rename; path = old_path; path2 = new_path }) (λ _. tt);
    link = λ old_path new_path.
        call (record zero_frame { op = op_link; path = old_path; path2 = new_path }) (λ f. f.attr);
    symlink = λ target path.
        call (record zero_frame { op = op_symlink; target = target; path = path }) (λ f. f.attr);
    readlink = λ path. call (record zero_frame { op = op_readlink; path = path }) (λ f. f.target);
    setattr = λ path handle change.
        call (record zero_frame { op = op_setattr; path = path; handle = handle; change = change })
          (λ f. f.attr);
    stat_fs = call (record zero_frame { op = op_statfs }) (λ f. f.stat_fs);
    close_backend = λ s. (s, ok tt);
  }

-- No frame is too large.
abbrev pub unlimited : WireFrame → Option Bytes
unlimited frame = none

abbrev pub response_frame : ℕ → WireFrame → WireFrame
response_frame id response = record response { type = frame_response; id = id }

-- What arrives in the place of a response: the response, or what `sendResponse` sends for one that is
-- too large.
unfoldable pub arriving : (WireFrame → Option Bytes) → ℕ → WireFrame → WireFrame
arriving limit id response = elim (limit (response_frame id response)) [
  | none ↦ response
  | some text ↦ record zero_frame { error_code = error_too_large; error = text }
]

-- A request that the other peer answers: `request` on one side, and `handleRequest` and `sendResponse`
-- on the other. `limit` is the text of the error of a frame that is too large to be sent. The caller's
-- context does not end, and the connection stays up.
unfoldable pub exchange :
    {S : Type 0}
    → (WireFrame → Option Bytes)
    → PeerOptions S
    → ℕ
    → WireFrame
    → Exports S × S
    → (Exports S × S) × (WireFrame × Error)
unfolding handle_request answer arriving
exchange limit opts id q state = elim (limit (record q { type = frame_request; id = id })) [
  | some text ↦ (state, (zero_frame, unknown))
  | none ↦
      let (state', response) =
        handle_request opts state (record q { type = frame_request; id = id }) in
      (state', answer (arriving limit id response))
]
