-- ===== src/Locald/Session.antt =====
-- internal/locald/server_session.go: session leases. The parts of `handleSession` are `begin_session`,
-- `register_session` and the release at its end. `begin_session` and `handle_conn` are calls that no
-- other handler comes between; Runs has the steps of their parts, so that others may.
pub mod Counting
pub mod Heartbeats
pub mod Leases
pub mod Release
pub mod LastLease
pub mod Runs
use sshx.Prelude.{
  ℕ, suc, ◌+◌, ◌-◌, Bool, true, false, not, ◌&&◌, ◌||◌, Option, none, some, List, [], ◌∷◌, leb,
  is_empty, if◌then◌else◌, ◌==◌, bytes_eq, nat_eq,
}
use sshx.Prelude.Text.{Bytes}
use sshx.Prelude.Map.{Map, lookup, insert, delete, has}
use sshx.Forward.Manager
use sshx.Domain
use sshx.Locald.{
  RequestType, Request, Response, Error, refused, opened, heartbeat_ack, pong, shutting_down,
  lease_required, lease_id_required, incompatible, is_draining, session_exists, invalid_heartbeat,
  unknown_type, TargetRecord, SessionRecord, Server, default_ssh_args, target_key, request_lease_id,
  request_compatible, has_session, initiate_shutdown,
}
use sshx.Locald.Target.{
  Attempt, done, failed, ensure_target, ensure_target_port, remove_target_port, list_ports,
}

-- `handleSession` up to the record of the target.
unfoldable pub begin_session : Bool → Server → Request → Attempt × Server
begin_session starts s req =
    if is_empty (request_lease_id req)
    then (failed lease_id_required, s)
    else if not (request_compatible req)
    then (failed incompatible, s)
    else if s.draining
    then (failed is_draining, s)
    else ensure_target starts s req

-- `rec.Sessions++`: a record that the map does not hold any more is not seen by others.
unfoldable pub join_target : Map Bytes TargetRecord → Bytes → TargetRecord → Map Bytes TargetRecord
join_target targets key rec = elim (lookup key targets) [
  | none ↦ targets
  | some held ↦
      if held.id == rec.id
      then insert key (record held { sessions = suc held.sessions }) targets
      else targets
]

abbrev pub new_session : Request → ℕ → SessionRecord
new_session req conn = record {
  target_key = target_key req;
  ssh_path = req.ssh_path;
  ssh_args = default_ssh_args req;
  control_path = req.control_path;
  conn = conn;
}

-- The part of `handleSession` that makes the lease, and its first answer.
unfoldable pub register_session : Server → Request → TargetRecord → ℕ → Response × Server
unfolding join_target
register_session s req rec conn =
    if s.draining
    then (refused is_draining, s)
    else if has (lookup (request_lease_id req) s.sessions)
    then (refused session_exists, s)
    else (
      opened rec.domain rec.listen_ip,
      record s {
        sessions = insert (request_lease_id req) (new_session req conn) s.sessions;
        targets = join_target s.targets (target_key req) rec;
      },
    )

-- One round of the loop: the answer, and whether the loop goes on.
unfoldable pub heartbeat : Bytes → Request → Response × Bool
heartbeat lease_id beat =
    if not (elim beat.kind [ RequestType.heartbeat ↦ true | _ ↦ false ])
      || not (request_lease_id beat == lease_id)
    then (refused invalid_heartbeat, false)
    else if not (request_compatible beat)
    then (refused incompatible, false)
    else (heartbeat_ack beat.sequence, true)

-- The loop on the requests that arrive in time; at the end of the list reading fails.
unfoldable pub heartbeats : Bytes → List Request → List Response
heartbeats lease_id [] = []
heartbeats lease_id (beat ∷ beats) =
    let rest = heartbeats lease_id beats in
    let (answer, goes_on) = heartbeat lease_id beat in
    if goes_on then answer ∷ rest else answer ∷ []

-- The name of a target taken out of its domain manager.
unfoldable pub unregister : Map Bytes Domain.Manager → TargetRecord → Map Bytes Domain.Manager
unregister domains rec = elim (lookup rec.domain_manager domains) [
  | none ↦ domains
  | some dom ↦
      if is_empty rec.domain
      then domains
      else insert rec.domain_manager (Domain.unregister dom rec.domain) domains
]

unfoldable pub stop_forwarder : Server → Bytes → Server
stop_forwarder s key = elim (lookup key s.forwarders) [
  | none ↦ s
  | some m ↦ record s { forwarders = delete key s.forwarders; stopped = Manager.stop m ∷ s.stopped }
]

-- A target taken out: its forward manager is stopped, its name is unregistered.
unfoldable pub drop_target : Server → Bytes → TargetRecord → Server
unfolding stop_forwarder unregister
drop_target s key rec =
    let s1 = stop_forwarder s key in
    record s1 { targets = delete key s1.targets; domains = unregister s1.domains rec }

-- The end of a release: with no session left the daemon drains and shuts down.
unfoldable pub shut_down_when : Bool → Server → Server
unfolding initiate_shutdown
shut_down_when empty s = if empty then initiate_shutdown (record s { draining = true }) else s

unfoldable pub leave_target : Server → Bytes → Server
unfolding drop_target
leave_target s key = elim (lookup key s.targets) [
  | none ↦ s
  | some rec ↦
      if leb rec.sessions 1
      then drop_target s key (record rec { sessions = 0 })
      else record s { targets = insert key (record rec { sessions = rec.sessions - 1 }) s.targets }
]

unfoldable pub release_session_now : Server → Bytes → Server
release_session_now s id = elim (lookup id s.sessions) [
  | none ↦ shut_down_when (is_empty s.sessions) s
  | some session ↦
      let s1 = leave_target (record s { sessions = delete id s.sessions }) session.target_key in
      shut_down_when (is_empty s1.sessions) s1
]

-- The lock part of `releaseSessionWithGrace`, and the target that is looked at after the grace.
unfoldable pub release_session_with_grace : Server → Bytes → Option Bytes × Server
release_session_with_grace s id = elim (lookup id s.sessions) [
  | none ↦ (none, s)
  | some session ↦ (
    some session.target_key,
    record s {
      sessions = delete id s.sessions;
      targets = elim (lookup session.target_key s.targets) [
        | none ↦ s.targets
        | some rec ↦
            insert session.target_key (record rec { sessions = rec.sessions - 1 }) s.targets
      ];
    },
  )
]

unfoldable pub drop_idle : Server → Bytes → Server
unfolding drop_target
drop_idle s key = elim (lookup key s.targets) [
  | none ↦ s
  | some rec ↦ if rec.sessions == 0 then drop_target s key rec else s
]

unfoldable pub cleanup_idle_target : Server → Bytes → Server
unfolding drop_idle shut_down_when
cleanup_idle_target s key =
    let s1 = drop_idle s key in shut_down_when (is_empty s1.sessions && is_empty s1.targets) s1

-- `releaseSession`: with a grace the target is looked at later, by `cleanup_idle_target`.
unfoldable pub release_session : Bool → Server → Bytes → Option Bytes × Server
release_session has_grace s id =
    if has_grace then release_session_with_grace s id else (none, release_session_now s id)

-- `handle`, for the requests that are not a session.
unfoldable pub handle : Bool → Bool → Server → Request → Response × Server
handle starts opens s req = elim req.kind [
  | RequestType.ping ↦ (pong, s)
  | RequestType.ensure_target_port ↦ ensure_target_port starts opens s req
  | RequestType.remove_target_port ↦ remove_target_port s req
  | RequestType.list_ports ↦ (list_ports s, s)
  | RequestType.shutdown ↦ (shutting_down, s)
  | _ ↦ (refused unknown_type, s)
]

unfoldable pub needs_lease : RequestType → Bool
needs_lease RequestType.ensure_target_port = true
needs_lease RequestType.remove_target_port = true
needs_lease _ = false

unfoldable pub is_shutdown : RequestType → Bool
is_shutdown RequestType.shutdown = true
is_shutdown _ = false

-- `handleConn` on a request that is not a session.
unfoldable pub handle_conn : Bool → Bool → Server → Request → Response × Server
handle_conn starts opens s req =
    if needs_lease req.kind && not (has_session s (request_lease_id req))
    then (refused lease_required, s)
    else let (answer, s1) = handle starts opens s req in
      (answer, if is_shutdown req.kind then initiate_shutdown s1 else s1)
