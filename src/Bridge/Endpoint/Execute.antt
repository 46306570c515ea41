-- ===== src/Bridge/Endpoint/Execute.antt =====
-- internal/bridge/client.go: `ExecuteLocal`, and the requester's end of a command.
use sshx.Prelude.{
  ℕ, ◌+◌, ◌/◌, ◌%◌, Bool, not, Option, none, some, List, is_empty, if◌then◌else◌, ◌==◌, bytes_eq,
  nat_eq,
}
use sshx.Prelude.Map.{Map, lookup}
use sshx.Prelude.Text.{Bytes, codes}
use sshx.Protocol.Frames.{
  Frame, FrameType, zero_frame, our_versions, type_hello, type_command_exec, type_command_result,
  type_command_error, type_error, role_requester,
}

-- How a process ends: with its exit code and output, at its timeout, or it did not run.
pub data Finished : Type 0 where
  exited : ℕ → Bytes → Bytes → Finished
  timed_out : Bytes → Finished
  not_run : Bytes → Finished

-- A process to run: arguments, input, directory, what is added to the environment, and the timeout.
pub record Process : Type 0 where
  pub argv : List Bytes
  pub stdin : Bytes
  pub dir : Option Bytes
  pub env : Map Bytes Bytes
  pub timeout_millis : ℕ

-- Base64, and how the client's machine runs a process.
pub record Machine : Type 0 where
  pub encode : Bytes → Bytes
  pub decode : Bytes → Option Bytes
  pub decode_error : Bytes → Bytes
  pub home : Option Bytes
  pub run : Process → Finished

unfoldable pub working_dir : Machine → Frame → Option Bytes
working_dir m frame =
    if not (is_empty frame.cwd)
    then some frame.cwd
    else elim (lookup (codes "SSHX_REMOTE_FS") frame.env) [
      | none ↦ none
      | some v ↦ if v == codes "0" then m.home else none
    ]

abbrev pub finished_frame : Machine → Frame → Finished → Frame
finished_frame m frame (exited code out errors) = record zero_frame {
  type = type_command_result;
  id = frame.id;
  exit_code = code;
  stdout = m.encode out;
  stderr = m.encode errors;
}
finished_frame m frame (timed_out text) = record zero_frame {
  type = type_command_error;
  id = frame.id;
  exit_code = 124;
  error = text;
}
finished_frame m frame (not_run text) = record zero_frame {
  type = type_command_error;
  id = frame.id;
  error = text;
}

-- `ExecuteLocal`
unfoldable pub execute_local : Machine → Frame → Frame
unfolding working_dir
execute_local m frame =
    if is_empty frame.argv
    then record zero_frame {
      type = type_command_error;
      id = frame.id;
      error = codes "command argv is empty";
    }
    else elim (m.decode frame.stdin) [
      | none ↦ record zero_frame {
        type = type_command_error;
        id = frame.id;
        error = m.decode_error frame.stdin;
      }
      | some stdin ↦ finished_frame m frame (
          m.run (record {
            argv = frame.argv;
            stdin = stdin;
            dir = working_dir m frame;
            env = frame.env;
            timeout_millis = frame.timeout_millis;
          }))
    ]

-- `durationMillis`, for a timeout in nanoseconds.
unfoldable pub duration_millis : ℕ → ℕ
duration_millis timeout =
    let millis = timeout / 1000000 in if timeout % 1000000 == 0 then millis else millis + 1

-- The arguments of `RequestCommandForContextWithMountOptions`, the runtime of the build, and a new id.
pub record Request : Type 0 where
  pub argv : List Bytes
  pub stdin : Bytes
  pub env : Map Bytes Bytes
  pub cwd : Bytes
  pub context_id : Bytes
  pub session_id : Bytes
  pub remote_fs : Bool
  pub read_only : Bool
  pub timeout : ℕ
  pub token : Bytes
  pub runtime_id : Bytes
  pub id : Bytes

unfoldable pub requester_hello : Request → Frame
requester_hello r = record zero_frame {
  type = type_hello;
  versions = our_versions;
  runtime_id = r.runtime_id;
  role = role_requester;
  context_id = r.context_id;
  session_id = r.session_id;
  token = r.token;
}

unfoldable pub command_frame : Machine → Request → Frame
unfolding duration_millis
command_frame m r = record zero_frame {
  type = type_command_exec;
  id = r.id;
  request_id = r.id;
  argv = r.argv;
  env = r.env;
  cwd = r.cwd;
  context_id = r.context_id;
  session_id = r.session_id;
  remote_fs = r.remote_fs;
  mount_read_only = r.read_only;
  stdin = m.encode r.stdin;
  timeout_millis = duration_millis r.timeout;
}

-- What a requester gets: the result of its command, or an exit code and an error.
pub data CommandResult : Type 0 where
  command_result : ℕ → Bytes → Bytes → CommandResult
  command_failed : ℕ → Bytes → CommandResult

abbrev pub decoded : Machine → ℕ → Frame → Option Bytes → Option Bytes → CommandResult
decoded m code frame (some out) (some errors) = command_result code out errors
decoded m code frame none errors = command_failed 1 (m.decode_error frame.stdout)
decoded m code frame (some out) none = command_failed 1 (m.decode_error frame.stderr)

-- The response, for its type; the text of the last error names the type as well.
unfoldable pub read_response : Machine → Frame → FrameType → CommandResult
read_response m frame type_command_error =
    command_failed (if frame.exit_code == 0 then 1 else frame.exit_code) frame.error
read_response m frame type_error =
    command_failed (if frame.exit_code == 0 then 1 else frame.exit_code) frame.error
read_response m frame type_command_result =
    decoded m frame.exit_code frame (m.decode frame.stdout) (m.decode frame.stderr)
read_response m frame kind = command_failed 1 (codes "unexpected response type")
