-- ===== src/Tests/Leases.antt =====
-- The local daemon: targets, leases and runs.
use sshx.Prelude.{
  All, ℕ, suc, ◌+◌, ◌≡◌, ◌<◌, ◌≤◌, refl, Bool, true, false, Option, none, some, List, [], ◌∷◌, ◌++◌,
  length, ◌==◌, nat_eq, bytes_eq, eq_iff, if◌then◌else◌, arith, contains,
}
use sshx.Prelude.Text.{Bytes, codes}
use sshx.Prelude.Map.{Map, lookup, IsMap}
use sshx.Loopback.{address}
use sshx.Locald.{RequestType, Request, TargetRecord, SessionRecord, Server, accept}
use sshx.Locald.Target.{done, listen_ips, allocate_loopback_ip, ensure_target}
use sshx.Locald.Target.Ensure.{Added, is_complete, ensure_target-Added}
use sshx.Locald.Target.Results.{Outcome, ensure_target-Outcome}
use sshx.Locald.Session.Heartbeats.{IsBeat}
use sshx.Locald.Session.{heartbeat, begin_session, register_session, release_session_now}
use sshx.Locald.Session.Counting.{Exact}
use sshx.Locald.Session.LastLease.{Released, release_session_now-Released}
use sshx.Locald.Session.Runs.{begins, registers, releases, Reaches, here, and_then, new_server}
use sshx.Locald.Session.Runs.Sound.{Sound}
use sshx.Locald.Session.Runs.Invariant.{new_server-Sound}
use sshx.Locald.Session.Runs.Draining.{Quiet, draining_is_final}

abbrev request : Request
request = record {
  kind = RequestType.open_session;
  ssh_path = codes "ssh";
  target = codes "box";
  ssh_args = [];
  remote_port = 0;
  remote_host = [];
  domain_suffix = codes "sshx";
  dns_addr = codes "127.0.0.1:53";
  session_id = [];
  lease_id = codes "a";
  target_id = codes "t";
  control_path = codes "/tmp/c";
  runtime_id = codes "locald-v1.forward-v1";
  sequence = 0;
  versions = record { protocol_version = 1; protocol_min = 0; protocol_max = 0 };
}

abbrev target_record : TargetRecord
target_record = record {
  id = 0;
  target = codes "box";
  domain = codes "box.sshx";
  listen_ip = codes "127.64.0.1";
  sessions = 1;
  domain_manager = codes "d";
}

abbrev session : SessionRecord
session = record {
  target_key = codes "t";
  ssh_path = codes "ssh";
  ssh_args = codes "box" ∷ [];
  control_path = codes "/tmp/c";
  conn = 4;
}

abbrev one_lease : Map Bytes SessionRecord
one_lease = (codes "a", session) ∷ []

abbrev one_session : Server
one_session = record new_server {
  targets = (codes "t", target_record) ∷ [];
  sessions = one_lease;
  next_id = 1;
}

complete : is_complete request ≡ true
unfolding is_complete
complete = refl

new_target : lookup (codes "t") new_server.targets ≡ none
unfolding lookup
new_target = refl

ensure_target-Added_example :
    (rec : TargetRecord) × (s' : Server) × (ensure_target true new_server request ≡ (done rec, s'))
    × Added new_server request rec s'
unfolding lookup
ensure_target-Added_example = ensure_target-Added new_server request complete refl (omega arith)

ensure_target-Outcome_example :
    Outcome one_session request (ensure_target false one_session request)
ensure_target-Outcome_example = ensure_target-Outcome false one_session request

second : allocate_loopback_ip one_session.targets ≡ some (codes "127.64.0.2")
unfolding allocate_loopback_ip sshx.Locald.Target.first_unused contains sshx.Prelude.bytes_beq
    address sshx.Prelude.Decimal.itoa
second = refl

one_lease-IsMap : IsMap one_lease
unfolding lookup
one_lease-IsMap = (refl, tt)

one_session-Exact : Exact one_session
unfolding lookup
one_session-Exact = (one_lease-IsMap, λ key rec l. ground (arith, eq_iff (codes "t") key))

held : lookup (codes "a") one_session.sessions ≡ some session
unfolding lookup sshx.Prelude.bytes_beq
held = refl

release_session_now-Released_example :
    Released one_session (codes "a") session (release_session_now one_session (codes "a"))
release_session_now-Released_example =
    release_session_now-Released one_session (codes "a") session one_session-Exact held

abbrev begun : Server
begun = (begin_session true new_server request).1

abbrev running : Server
running = (register_session begun request target_record 4).1

start : Reaches new_server (release_session_now running (codes "a"))
start = and_then (begins true new_server request) (
    and_then (registers begun request target_record 4)
      (and_then (releases running (codes "a")) (here (release_session_now running (codes "a")))))

new_server-Sound_example : Sound (release_session_now running (codes "a"))
new_server-Sound_example = new_server-Sound start

abbrev drained : Server
drained = record one_session { draining = true }

draining_is_final_example : Quiet drained (register_session drained request target_record 9).1
draining_is_final_example =
    draining_is_final
      (and_then (registers drained request target_record 9)
        (here (register_session drained request target_record 9).1))
      refl

abbrev beat : Request
beat = record request { kind = RequestType.heartbeat; sequence = 5 }

beats-IsBeat : All (IsBeat (codes "a")) (beat ∷ [])
unfolding sshx.Prelude.bytes_beq sshx.Locald.request_lease_id sshx.Locald.request_compatible
    sshx.Protocol.frame_compatible
beats-IsBeat = ((refl, refl, refl), tt)

not_a_beat : (heartbeat (codes "a") request).1 ≡ false
unfolding heartbeat
not_a_beat = refl
