-- ===== src/Protocol/Frames.antt =====
-- internal/protocol/protocol.go: the frames of the bridge. JSON passes them on as they are.
use sshx.Prelude.{ℕ, Bool, false, List, []}
use sshx.Prelude.Map.{Map}
use sshx.Prelude.Text.{Bytes}
use sshx.Protocol.{Versions, version, min_version, max_version}

-- The strings of `Type` that the source names, and any other.
pub data FrameType : Type 0 where
  type_hello type_capabilities type_command_exec type_command_result type_command_error
        type_port_observed type_port_gone type_error type_heartbeat type_heartbeat_ack
        type_server_drain :
      FrameType
  other_type : Bytes → FrameType

pub data Role : Type 0 where
  role_client role_requester : Role
  other_role : Bytes → Role

-- An exit code is the word of a signed number; ports and timeouts are not negative.
pub record Frame : Type 0 where
  pub type : FrameType
  pub id : Bytes
  pub versions : Versions
  pub runtime_id : Bytes
  pub app_version : Bytes
  pub target_id : Bytes
  pub context_id : Bytes
  pub session_id : Bytes
  pub request_id : Bytes
  pub sequence : ℕ
  pub role : Role
  pub token : Bytes
  pub capabilities : List Bytes
  pub argv : List Bytes
  pub env : Map Bytes Bytes
  pub cwd : Bytes
  pub remote_fs : Bool
  pub mount_id : Bytes
  pub mount_path : Bytes
  pub mount_read_only : Bool
  pub stdin : Bytes
  pub timeout_millis : ℕ
  pub exit_code : ℕ
  pub stdout : Bytes
  pub stderr : Bytes
  pub error : Bytes
  pub port : ℕ
  pub host : Bytes

abbrev pub no_versions : Versions
no_versions = record { protocol_version = 0; protocol_min = 0; protocol_max = 0 }

-- The versions that every hello, heartbeat and acknowledgement of this program carries.
abbrev pub our_versions : Versions
our_versions = record {
  protocol_version = version;
  protocol_min = min_version;
  protocol_max = max_version;
}

-- `protocol.Frame{}`
abbrev pub zero_frame : Frame
zero_frame = record {
  type = other_type [];
  id = [];
  versions = no_versions;
  runtime_id = [];
  app_version = [];
  target_id = [];
  context_id = [];
  session_id = [];
  request_id = [];
  sequence = 0;
  role = other_role [];
  token = [];
  capabilities = [];
  argv = [];
  env = [];
  cwd = [];
  remote_fs = false;
  mount_id = [];
  mount_path = [];
  mount_read_only = false;
  stdin = [];
  timeout_millis = 0;
  exit_code = 0;
  stdout = [];
  stderr = [];
  error = [];
  port = 0;
  host = [];
}
