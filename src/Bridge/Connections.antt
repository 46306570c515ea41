-- ===== src/Bridge/Connections.antt =====
-- internal/bridge/bridge.go: what the server makes of a connection: `handleConn`, the checks of
-- `handleRequester`, the frames of a client, and `monitorLeases`.
pub mod Leases
use sshx.Prelude.{
  ℕ, ◌+◌, Bool, true, false, not, ◌&&◌, ◌||◌, Option, none, some, List, [], ◌∷◌, is_empty,
  if◌then◌else◌, ◌==◌, bytes_eq, nat_eq, leb,
}
use sshx.Prelude.Map.{Map, lookup, insert, delete, has}
use sshx.Prelude.Text.{Bytes, codes}
use sshx.Protocol.{frame_compatible}
use sshx.Protocol.Frames.{
  Frame, FrameType, Role, zero_frame, our_versions, type_hello, type_capabilities,
  type_command_exec, type_command_result, type_command_error, type_error, type_heartbeat,
  type_heartbeat_ack, type_server_drain, role_client, role_requester,
}
use sshx.Bridge.Clients.{Client, Server, add_client, remove_client}

abbrev pub default_capabilities : List Bytes
default_capabilities =
    codes "command.exec.batch-stdin" ∷ codes "heartbeat.v1" ∷ codes "remotefs.fs.v1" ∷ []

-- What the server is started with: its token, its version, and the runtime of this build.
pub record Settings : Type 0 where
  pub token : Bytes
  pub app_version : Bytes
  pub runtime_id : Bytes

-- What becomes of a connection: it is answered and closed, it is a client's, which gets an answer and
-- whose frames are then read, or it is a requester's.
pub data Fate : Type 0 where
  refused : Frame → Fate
  joined : Client → Frame → Fate
  requests : Bytes → Bytes → Fate

abbrev pub error_frame : Bytes → Frame
error_frame text = record zero_frame { type = type_error; error = text }

abbrev pub is_hello : FrameType → Bool
is_hello type_hello = true
is_hello kind = false

-- The capabilities of a client that names none are the default ones.
abbrev pub capabilities_of : List Bytes → List Bytes
capabilities_of [] = default_capabilities
capabilities_of (c ∷ cs) = c ∷ cs

abbrev pub client_of : ℕ → Frame → Client
client_of id hello = record {
  id = id;
  session_id = hello.session_id;
  context_id = hello.context_id;
  capabilities = capabilities_of hello.capabilities;
}

abbrev pub drain_frame : Settings → Frame
drain_frame c = record zero_frame {
  type = type_server_drain;
  app_version = c.app_version;
  runtime_id = c.runtime_id;
  versions = record our_versions { protocol_version = 0 };
  error = codes "sshx runtime protocol is incompatible";
}

-- The answer to a client that has been taken, or not since the server drains or knows the session.
unfoldable pub admit : Settings → Client → Bool × Server → Server × Fate
admit c client (false, s) = (
  s,
  refused (record zero_frame {
    type = type_server_drain;
    versions = record our_versions { protocol_min = 0; protocol_max = 0 };
    app_version = c.app_version;
    error = codes "sshx server is draining";
  }),
)
admit c client (true, s) = (
  s,
  joined client (record zero_frame {
    type = type_capabilities;
    versions = our_versions;
    runtime_id = c.runtime_id;
    app_version = c.app_version;
    capabilities = default_capabilities;
  }),
)

unfoldable pub handle_role : Settings → ℕ → ℕ → Frame → Server → Role → Server × Fate
unfolding admit add_client
handle_role c id now hello s role_client =
    if is_empty hello.session_id
    then (s, refused (error_frame (codes "client sessionId is required")))
    else if is_empty hello.target_id || is_empty hello.context_id
    then (s, refused (error_frame (codes "client targetId and contextId are required")))
    else admit c (client_of id hello) (add_client now s (client_of id hello))
handle_role c id now hello s role_requester = (s, requests hello.context_id hello.session_id)
handle_role c id now hello s role = (s, refused (error_frame (codes "unknown bridge role")))

-- `handleConn`, from the first frame; `id` stands for the connection.
unfoldable pub handle_conn : Settings → ℕ → ℕ → Frame → Server → Server × Fate
unfolding frame_compatible handle_role
handle_conn c id now hello s =
    if not (is_hello hello.type)
    then (s, refused (error_frame (codes "expected sshx hello")))
    else if not (is_empty c.token) && not (hello.token == c.token)
    then (s, refused (error_frame (codes "invalid sshx server token")))
    else if not (frame_compatible hello.versions) || not (hello.runtime_id == c.runtime_id)
    then (s, refused (drain_frame c))
    else handle_role c id now hello s hello.role

abbrev pub command_error : Frame → Bytes → Frame
command_error req text = record zero_frame { type = type_command_error; id = req.id; error = text }

abbrev pub is_command : FrameType → Bool
is_command type_command_exec = true
is_command kind = false

-- The checks of `handleRequester` on a command: the answer that refuses it.
unfoldable pub check_request : Bytes → Bytes → Frame → Option Frame
check_request context_id session_id req =
    if not (is_command req.type)
    then some (record (error_frame (codes "expected command.exec")) { id = req.id })
    else if not (is_empty session_id) && not (req.session_id == session_id)
    then some (command_error req (codes "requester sessionId does not match command sessionId"))
    else if not (is_empty context_id) && not (req.context_id == context_id)
    then some (command_error req (codes "requester contextId does not match command contextId"))
    else if req.remote_fs && is_empty req.cwd
    then some (command_error req (codes "remote fs requires sessionId and cwd"))
    else if req.remote_fs && (is_empty req.request_id || not (req.request_id == req.id))
    then some (command_error req (codes "requestId is required and must match command id"))
    else none

-- `clientConn`: the channels of the commands that wait for an answer, and when it was last heard of.
pub record Conn : Type 0 where
  pub pending : Map Bytes (Option Frame)
  pub last_seen : ℕ

-- The start and the end of `request`.
unfoldable pub begin_command : Bytes → Conn → Conn
begin_command id c = record c { pending = insert id none c.pending }

unfoldable pub end_command : Bytes → Conn → Conn
end_command id c = record c { pending = delete id c.pending }

-- What `readLoop` does next: it goes on, it answers and goes on, or it answers and removes the client.
pub data Reading : Type 0 where
  goes_on : Reading
  answers : Frame → Reading
  leaves : Frame → Reading

unfoldable pub deliver : Frame → Conn → Conn
deliver frame c = elim (lookup frame.id c.pending) [
  | none ↦ c
  | some waiting ↦
      if has waiting then c else record c { pending = insert frame.id (some frame) c.pending }
]

abbrev pub heartbeat_ack : Settings → Frame → Frame
heartbeat_ack c frame = record zero_frame {
  type = type_heartbeat_ack;
  versions = our_versions;
  runtime_id = c.runtime_id;
  app_version = c.app_version;
  session_id = frame.session_id;
  sequence = frame.sequence;
}

-- A heartbeat of a client.
unfoldable pub heartbeat : Settings → ℕ → Frame → Conn → Conn × Reading
unfolding frame_compatible
heartbeat c now frame conn =
    if not (frame_compatible frame.versions) || not (frame.runtime_id == c.runtime_id)
    then (conn, leaves (drain_frame c))
    else (record conn { last_seen = now }, answers (heartbeat_ack c frame))

-- One turn of `readLoop`, for the type of the frame.
unfoldable pub read_frame : Settings → ℕ → Frame → Conn → FrameType → Conn × Reading
unfolding heartbeat deliver
read_frame c now frame conn type_heartbeat = heartbeat c now frame conn
read_frame c now frame conn type_command_result = (deliver frame conn, goes_on)
read_frame c now frame conn type_command_error = (deliver frame conn, goes_on)
read_frame c now frame conn kind = (conn, goes_on)

-- The times that `monitorLeases` works with; `last_seen` is that of a connection.
pub record Timeouts : Type 0 where
  pub heartbeat : ℕ
  pub drain : ℕ
  pub startup : ℕ

-- The loop over the clients that were there: those that have not been heard of for too long go.
unfoldable pub remove_expired : Timeouts → ℕ → (ℕ → ℕ) → List Client → Server → Server
unfolding remove_client
remove_expired t now last_seen [] s = s
remove_expired t now last_seen (c ∷ cs) s =
    let rest = remove_expired t now last_seen cs in
    if leb (last_seen c.id + t.heartbeat) now then rest (remove_client now s c) else rest s

unfoldable pub should_drain : Timeouts → ℕ → ℕ → Server → Bool
should_drain t now connections s =
    is_empty s.clients
    && connections == 0
    && leb (s.last_active + (if s.ever_had_client then t.drain else t.startup)) now

-- A tick of `monitorLeases`, and whether it shuts the server down. `connections` are open.
unfoldable pub monitor : Timeouts → ℕ → (ℕ → ℕ) → ℕ → Server → Server × Bool
unfolding remove_expired should_drain
monitor t now last_seen connections s =
    let s' = remove_expired t now last_seen s.clients s in
    if should_drain t now connections s' then (record s' { draining = true }, true) else (s', false)
