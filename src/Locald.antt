-- ===== src/Locald.antt =====
-- internal/locald: the daemon on the user's machine. Its server keeps the targets in use, the session
-- leases that use them, and for each target a forward manager and a name in a domain manager.
-- A target record is a pointer in the source; `id` stands for its identity.
pub mod Target
pub mod Session
use sshx.Prelude.{
  ℕ, Bool, true, false, not, ◌&&◌, ◌||◌, Option, none, some, List, [], ◌∷◌, ◌++◌, is_empty,
  if◌then◌else◌, ◌==◌, bytes_eq, nat_eq,
}
use sshx.Prelude.Text.{Bytes, codes, join}
use sshx.Prelude.Map.{Map, lookup, has, values}
use sshx.Prelude.Set.{remove}
use sshx.Protocol.{Versions, version, min_version, max_version, frame_compatible}
use sshx.Identity.{local_runtime_id}
use sshx.Forward.Manager
use sshx.Domain

pub data RequestType : Type 0 where
  ping ensure_target_port remove_target_port list_ports open_session heartbeat shutdown unknown :
      RequestType

pub record Request : Type 0 where
  pub kind : RequestType
  pub ssh_path : Bytes
  pub target : Bytes
  pub ssh_args : List Bytes
  pub remote_port : ℕ
  pub remote_host : Bytes
  pub domain_suffix : Bytes
  pub dns_addr : Bytes
  pub session_id : Bytes
  pub lease_id : Bytes
  pub target_id : Bytes
  pub control_path : Bytes
  pub runtime_id : Bytes
  pub sequence : ℕ
  pub versions : Versions

pub record Forwarded : Type 0 where
  pub target : Bytes
  pub domain : Bytes
  pub listen_ip : Bytes
  pub local_port : ℕ
  pub remote_port : ℕ

pub data Error : Type 0 where
  lease_required lease_id_required incompatible is_draining session_exists invalid_heartbeat : Error
  port_required removal_incomplete target_incomplete pool_exhausted unknown_type : Error
  dns_not_started : Error
  names : Domain.Error → Error
  forwards : Manager.Failure → Error

-- The answers, by what the source puts in them.
pub data Response : Type 0 where
  refused : Error → Response
  -- the version of the daemon and its protocol range, to a ping
  pong : Response
  opened : Bytes → Bytes → Response
  heartbeat_ack : ℕ → Response
  forwarded : ℕ → Bytes → Bytes → Response
  removed : Response
  listed : List Forwarded → Response
  shutting_down : Response

pub record TargetRecord : Type 0 where
  pub id : ℕ
  pub target : Bytes
  pub domain : Bytes
  pub listen_ip : Bytes
  pub sessions : ℕ
  -- the key of its domain manager in the server's map, whose entries are never replaced
  pub domain_manager : Bytes

pub record SessionRecord : Type 0 where
  pub target_key : Bytes
  pub ssh_path : Bytes
  pub ssh_args : List Bytes
  pub control_path : Bytes
  pub conn : ℕ

pub record Server : Type 0 where
  pub forwarders : Map Bytes Manager.Manager
  pub targets : Map Bytes TargetRecord
  pub domains : Map Bytes Domain.Manager
  pub sessions : Map Bytes SessionRecord
  pub draining : Bool
  -- the channel `shutdown` is closed
  pub shut_down : Bool
  pub connections : List ℕ
  -- the identity that the next target record gets
  pub next_id : ℕ
  -- the forward managers that were stopped and taken out, the last one first
  pub stopped : List Manager.Manager

unfoldable pub default_ssh_args : Request → List Bytes
default_ssh_args req = if is_empty req.ssh_args then req.target ∷ [] else req.ssh_args

unfoldable pub request_key : Bytes → List Bytes → Bytes
request_key ssh_path ssh_args = ssh_path ++ (0 ∷ join ssh_args (0 ∷ []))

unfoldable pub target_key : Request → Bytes
unfolding default_ssh_args request_key
target_key req =
    if is_empty req.target_id
    then request_key req.ssh_path (default_ssh_args req)
    else req.target_id

unfoldable pub request_lease_id : Request → Bytes
request_lease_id req = if is_empty req.lease_id then req.session_id else req.lease_id

unfoldable pub request_compatible : Request → Bool
request_compatible req = frame_compatible req.versions && req.runtime_id == local_runtime_id

unfoldable pub has_session : Server → Bytes → Bool
has_session s id = not (is_empty id) && has (lookup id s.sessions)

unfoldable pub initiate_shutdown : Server → Server
initiate_shutdown s = if s.shut_down then s else record s { draining = true; shut_down = true }

-- The timer of `monitorStartup`.
unfoldable pub monitor_startup : Server → Server
unfolding initiate_shutdown
monitor_startup s =
    if is_empty s.sessions then initiate_shutdown (record s { draining = true }) else s

-- The part of `Serve` for one accepted connection: `true` when a handler is started for it.
unfoldable pub accept : Server → ℕ → Bool × Server
accept s conn =
    if s.draining then (false, s) else (true, record s { connections = conn ∷ s.connections })

unfoldable pub remove_connection : Server → ℕ → Server
remove_connection s conn = record s { connections = remove conn s.connections }

unfoldable pub stop_all : Map Bytes Manager.Manager → Map Bytes Manager.Manager
stop_all [] = []
stop_all ((key, m) ∷ ms) = (key, Manager.stop m) ∷ stop_all ms

-- What `stopResources` does to the server's own state; it also stops the DNS listeners and closes the
-- connections of the sessions, whose handlers then return.
unfoldable pub stop_resources : Server → Server
unfolding stop_all
stop_resources s = record s { forwarders = stop_all s.forwarders }
