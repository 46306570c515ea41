-- ===== src/Bridge/Endpoint.antt =====
-- internal/bridge/client.go: the client's end of the bridge, which runs commands, and the requester's.
-- Base64, the processes and the environment of the client are parameters.
pub mod Execute
pub mod Commands
pub mod Heartbeats
use sshx.Prelude.{
  ℕ, ◌+◌, ◌-◌, ◌*◌, ◌/◌, ◌%◌, Bool, true, false, not, ◌&&◌, ◌||◌, Option, none, some, List, [], ◌∷◌,
  ◌++◌, is_empty, if◌then◌else◌, ◌==◌, bytes_eq, nat_eq, leb,
}
use sshx.Prelude.Map.{Map, lookup}
use sshx.Prelude.Text.{Bytes, codes}
use sshx.Protocol.{frame_compatible}
use sshx.Protocol.Frames.{
  Frame, FrameType, zero_frame, our_versions, type_hello, type_capabilities, type_command_exec,
  type_command_result, type_command_error, type_error, type_heartbeat, type_heartbeat_ack,
  type_server_drain, type_port_observed, type_port_gone, role_client, role_requester,
}
use sshx.Bridge.Connections.{capabilities_of}

-- `ClientOptions`: what the client is started with, the policy, if there is one, and whether somebody
-- listens for ports.
pub record ClientOptions : Type 0 where
  pub app_version : Bytes
  pub runtime_id : Bytes
  pub target_id : Bytes
  pub context_id : Bytes
  pub session_id : Bytes
  pub capabilities : List Bytes
  pub token : Bytes
  pub allow : Option (List Bytes → Bool)
  pub on_port_observed : Bool
  pub on_port_gone : Bool
  pub heartbeat_timeout : ℕ

abbrev pub default_to : Bytes → Bytes → Bytes
default_to fallback value = if is_empty value then fallback else value

-- The defaults at the start of `RunClientConnWithOptions`, in nanoseconds; a new id, the version and
-- the runtime of this build are given.
unfoldable pub with_defaults : Bytes → Bytes → Bytes → ClientOptions → ClientOptions
with_defaults uuid version runtime opts = record opts {
  app_version = default_to version opts.app_version;
  session_id = default_to uuid opts.session_id;
  runtime_id = default_to runtime opts.runtime_id;
  target_id = default_to (codes "default") opts.target_id;
  context_id = default_to (codes "default") opts.context_id;
  capabilities = capabilities_of opts.capabilities;
  heartbeat_timeout = if opts.heartbeat_timeout == 0 then 15000000000 else opts.heartbeat_timeout;
}

unfoldable pub client_hello : ClientOptions → Frame
client_hello opts = record zero_frame {
  type = type_hello;
  versions = our_versions;
  runtime_id = opts.runtime_id;
  app_version = opts.app_version;
  target_id = opts.target_id;
  context_id = opts.context_id;
  session_id = opts.session_id;
  capabilities = opts.capabilities;
  role = role_client;
  token = opts.token;
}

abbrev pub heartbeat_frame : ClientOptions → ℕ → Frame
heartbeat_frame opts sequence = record zero_frame {
  type = type_heartbeat;
  versions = our_versions;
  runtime_id = opts.runtime_id;
  app_version = opts.app_version;
  context_id = opts.context_id;
  session_id = opts.session_id;
  sequence = sequence;
}

-- A tick of the heartbeats: the frame to send, or `none` where the connection is closed since no
-- acknowledgement has come for too long. `sequence` counts on.
unfoldable pub heartbeat_tick : ClientOptions → ℕ → ℕ → ℕ → Option Frame
heartbeat_tick opts now last_ack sequence =
    if leb (last_ack + opts.heartbeat_timeout) now
    then none
    else some (heartbeat_frame opts (sequence + 1))

pub record Endpoint : Type 0 where
  pub ready : Bool
  pub last_ack : ℕ

-- What the client does with a frame: nothing, it stops with an error, it calls back, it answers, or it
-- starts to run a command.
pub data Event : Type 0 where
  ignored : Event
  stops : Bytes → Event
  observed : Bytes → ℕ → Event
  gone : ℕ → Event
  sends : Frame → Event
  executes : Frame → Event

abbrev pub denied_by : Option (List Bytes → Bool) → List Bytes → Bool
denied_by none argv = false
denied_by (some allow) argv = not (allow argv)

abbrev pub is_ours : ClientOptions → Frame → Bool
is_ours opts frame = frame_compatible frame.versions && frame.runtime_id == opts.runtime_id

-- One turn of the loop of `RunClientConnWithOptions`, for the type of the frame.
unfoldable pub client_frame : ClientOptions → ℕ → Frame → Endpoint → FrameType → Endpoint × Event
unfolding frame_compatible
client_frame opts now frame e type_capabilities =
    if e.ready
    then (e, ignored)
    else if not (is_ours opts frame)
    then (e, stops (codes "sshx bridge runtime is incompatible"))
    else (record e { ready = true }, ignored)
client_frame opts now frame e type_heartbeat_ack =
    if not (is_ours opts frame)
    then (e, stops (codes "sshx bridge heartbeat runtime is incompatible"))
    else (record e { last_ack = now }, ignored)
client_frame opts now frame e type_server_drain =
    (e, stops (codes "sshx server draining: " ++ frame.error))
client_frame opts now frame e type_port_observed =
    if opts.on_port_observed && not (frame.port == 0)
    then (e, observed frame.host frame.port)
    else (e, ignored)
client_frame opts now frame e type_port_gone =
    if opts.on_port_gone && not (frame.port == 0) then (e, gone frame.port) else (e, ignored)
client_frame opts now frame e type_command_exec =
    if denied_by opts.allow frame.argv
    then (
      e,
      sends (record zero_frame {
        type = type_command_error;
        id = frame.id;
        error = codes "command denied by sshx policy";
      }),
    )
    else (e, executes frame)
client_frame opts now frame e kind = (e, ignored)
