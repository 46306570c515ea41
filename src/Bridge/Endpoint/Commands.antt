-- ===== src/Bridge/Endpoint/Commands.antt =====
-- A command through the bridge: from the requester, past the checks of the server and the policy of the
-- client, to a process, and its result back.
use sshx.Prelude.{
  ℕ, ◌+◌, ◌*◌, ◌<◌, ◌≤◌, ◌≡◌, refl, true, false, ◌||◌, some, is_empty, ◌==◌, if◌then◌else◌,
  bytes_eq, nat_eq, arith,
}
use sshx.Prelude.Text.{Bytes}
use sshx.Protocol.{frame_compatible}
use sshx.Protocol.Frames.{Frame, our_versions}
use sshx.Bridge.Connections.{Settings}
use sshx.Bridge.Endpoint.{Endpoint}
use sshx.Bridge.Endpoint.Execute.{
  Machine, Process, Finished, exited, timed_out, not_run, working_dir, duration_millis, Request,
  command_frame, CommandResult, command_result, command_failed,
}

-- Base64 gives back what was encoded.
pub record IsCodec (m : Machine) : Type 0 where
  pub decodes : (s : Bytes) → m.decode (m.encode s) ≡ some s

-- The process that a request asks for.
abbrev pub process_of : Machine → Request → Process
process_of m r = record {
  argv = r.argv;
  stdin = r.stdin;
  dir = working_dir m (command_frame m r);
  env = r.env;
  timeout_millis = duration_millis r.timeout;
}

-- What a requester should see of the end of its process.
abbrev pub result_of : Finished → CommandResult
result_of (exited code out errors) = command_result code out errors
result_of (timed_out text) = command_failed 124 text
result_of (not_run text) = command_failed 1 text

-- The frame of a command without a remote file system, as the server sends it to a client with the
-- session `client_session`.
abbrev pub forwarded : Bytes → Machine → Request → Frame
forwarded client_session m r = record (command_frame m r) {
  session_id = if is_empty r.session_id then client_session else r.session_id;
}

-- The conditions under which the server takes a requester and its command, which has no remote file
-- system.
pub record IsAdmitted (c : Settings) (r : Request) : Type 0 where
  pub token : (is_empty c.token || r.token == c.token) ≡ true
  pub runtime : r.runtime_id ≡ c.runtime_id
  pub local_fs : r.remote_fs ≡ false

pub our_versions-compatible : frame_compatible our_versions ≡ true
unfolding frame_compatible
our_versions-compatible = refl

-- The timeout that is sent is the smallest number of milliseconds that is long enough.
pub duration_millis-lt :
    (timeout : ℕ)
    → (timeout ≤ duration_millis timeout * 1000000)
      × (duration_millis timeout * 1000000 < timeout + 1000000)
unfolding duration_millis
duration_millis-lt timeout = ground arith
