-- ===== src/Tests/Bridges.antt =====
-- Tests and examples for the two ends of the bridge, and for the mounts of a session.
use sshx.Prelude.{
  ℕ, ◌+◌, ◌<◌, ◌≤◌, ◌≡◌, ◌↔◌, refl, Bool, true, false, Option, none, some, List, [], ◌∷◌, is_empty,
  arith, nat_eq, bytes_eq,
}
use sshx.Prelude.Text.{codes}
use sshx.Protocol.Frames.{Frame}
use sshx.Bridge.Clients.{Client, Server, add_client}
use sshx.Bridge.Connections.{
  Settings, Timeouts, monitor, handle_conn, default_capabilities, Conn, read_frame, answers,
}
use sshx.Bridge.Connections.Leases.{AreDistinct, has_id, monitor_lem}
use sshx.Bridge.Endpoint.{
  ClientOptions, Endpoint, client_frame, ignored, client_hello, heartbeat_tick,
}
use sshx.Bridge.Endpoint.Execute.{Machine, Request, exited, duration_millis}
use sshx.Bridge.Endpoint.Heartbeats.{is_joined, may_join, client_hello-joined, heartbeat_round}
use sshx.Bridge.Mounts.{FsSession, fs_session, begin_mount, mount_made, safe_session_id, path_base}
use sshx.Bridge.Mounts.Sound.{begins, Reachable, starts, then_step}
use sshx.Bridge.Exports.{
  Export, new_export, begin_export, export_opened, store_export, finish_export, peer_joined,
  peer_left, present,
}
use sshx.Bridge.Exports.Exact
use sshx.Bridge.Exports.Exact.{IsExact, Reachable-IsExact}

abbrev settings : Settings
settings = record { token = codes "t"; app_version = codes "1"; runtime_id = codes "r" }

-- A machine without an encoding, on which each process echoes its input.
abbrev machine : Machine
machine = record {
  encode = λ s. s;
  decode = λ s. some s;
  decode_error = λ s. codes "illegal base64";
  home = none;
  run = λ p. exited 0 p.stdin [];
}

abbrev request : Request
request = record {
  argv = codes "cat" ∷ [];
  stdin = codes "hello";
  env = [];
  cwd = codes "/";
  context_id = codes "c";
  session_id = [];
  remote_fs = false;
  read_only = false;
  timeout = 1500001;
  token = codes "t";
  runtime_id = codes "r";
  id = codes "7";
}

abbrev client_options : ClientOptions
client_options = record {
  app_version = codes "1";
  runtime_id = codes "r";
  target_id = codes "t";
  context_id = codes "c";
  session_id = codes "s";
  capabilities = default_capabilities;
  token = codes "t";
  allow = none;
  on_port_observed = true;
  on_port_gone = true;
  heartbeat_timeout = 15;
}

abbrev endpoint : Endpoint
endpoint = record { ready = true; last_ack = 100 }

abbrev one_client : Server
one_client = record {
  clients =
      record { id = 1; session_id = codes "old"; context_id = codes "c"; capabilities = [] } ∷ [];
  ever_had_client = true;
  draining = false;
  last_active = 50;
}

client_hello-joined_example :
    is_joined (handle_conn settings 2 60 (client_hello client_options) one_client).1
    ≡ may_join settings client_options one_client
client_hello-joined_example =
    client_hello-joined settings client_options 2 60 one_client refl refl refl

-- The client of the example joins.
joins : may_join settings client_options one_client ≡ true
unfolding sshx.Prelude.bytes_beq sshx.Bridge.Clients.has_session
joins = refl

abbrev conn : Conn
conn = record { pending = []; last_seen = 90 }

heartbeat_round_example :
    (frame answer : Frame) × (heartbeat_tick client_options 105 100 3 ≡ some frame)
    × (read_frame settings 106 frame conn frame.type
        ≡ (record conn { last_seen = 106 }, answers answer))
    × (answer.sequence ≡ 4)
    × (client_frame client_options 107 answer endpoint answer.type
        ≡ (record endpoint { last_ack = 107 }, ignored))
heartbeat_round_example =
    heartbeat_round settings client_options conn endpoint 105 106 107 3 refl (omega arith)

abbrev timeouts : Timeouts
timeouts = record { heartbeat = 15; drain = 10; startup = 10 }

one_client-AreDistinct : AreDistinct one_client.clients
unfolding AreDistinct
one_client-AreDistinct = (refl, tt)

-- The only client is silent, and the server has no connection.
monitor_lem_example :
    let (s', drains) = monitor timeouts 70 (λ i. 55) 0 one_client in
    ((i : ℕ) → (has_id s'.clients i ≡ true) ↔ ((has_id one_client.clients i ≡ true) × (70 < 70)))
    × (drains ≡ true
        → (◌≡◌ {A = ℕ} 0 0)
          × ((i : ℕ) → has_id one_client.clients i ≡ true → 70 ≤ 70)
          × ((later : ℕ) (c : Client) → add_client later s' c ≡ (false, s')))
monitor_lem_example = monitor_lem timeouts 70 (λ i. 55) 0 one_client one_client-AreDistinct

path_base_examples :
    (path_base (codes "a/b//") ≡ codes "b")
    × (path_base (codes "//") ≡ codes "/")
    × (path_base [] ≡ codes ".")
    × (safe_session_id (codes "..") ≡ false)
unfolding path_base safe_session_id sshx.Prelude.bytes_beq
path_base_examples = (refl, refl, refl, refl)

duration_millis_example : duration_millis 1500001 ≡ 2
unfolding duration_millis
duration_millis_example = refl

-- A session that has been mounted.
abbrev mounted_session : FsSession
mounted_session = (mount_made (codes "m") false (begin_mount (codes "m") fs_session).0).0

-- The peer 1 has joined and an export is open.
abbrev exporting : Export
exporting = export_opened (begin_export (peer_joined false true 1 new_export)).0

exporting-Reachable : Exact.Reachable exporting
unfolding begin_export peer_joined
exporting-Reachable =
    Exact.then_step
      (Exact.then_step (Exact.then_step Exact.starts (Exact.joins false true 1)) Exact.begins)
      (Exact.opens refl)

Reachable-IsExact_example : IsExact exporting
Reachable-IsExact_example = Reachable-IsExact exporting exporting-Reachable

-- The export is kept when its peer leaves, and counts as present for the next peer.
abbrev rejoined : Export
rejoined = peer_joined false true 2 (peer_left 1 (finish_export (store_export 1 7 exporting).0))

stale_export : (rejoined.peer ≡ some 2) × ((begin_export rejoined).1 ≡ present)
unfolding begin_export export_opened store_export finish_export peer_joined peer_left
stale_export = (refl, refl)
