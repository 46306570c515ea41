-- ===== src/Locald/Target.antt =====
-- internal/locald/server_target.go: targets, their addresses and names, and their forwarded ports.
-- `ensureTarget` takes the lock up to three times: a look for the target, `domain`, and `add_target`.
-- `ensure_target` is a call of it that no other handler comes between; Session.Runs has the steps of its
-- parts, so that others may.
pub mod Addresses
pub mod Ensure
pub mod Results
pub mod Ports
use sshx.Prelude.{
  ℕ, zero, suc, ◌+◌, ◌*◌, Bool, true, false, not, ◌&&◌, ◌||◌, Option, none, some, List, [], ◌∷◌,
  ◌++◌, leb, is_empty, if◌then◌else◌, ◌==◌, bytes_eq, nat_eq, contains,
}
use sshx.Prelude.Text.{Bytes, split}
use sshx.Prelude.Decimal.{atoi}
use sshx.Prelude.Map.{Map, lookup, insert, values}
use sshx.Loopback.{size, address}
use sshx.Forward.Manager
use sshx.Domain
use sshx.Locald.{
  Request, Response, Error, refused, forwarded, removed, listed, port_required, removal_incomplete,
  target_incomplete, pool_exhausted, dns_not_started, names, forwards, Forwarded, TargetRecord,
  SessionRecord, Server, target_key,
}

-- `net.ParseIP` on the dotted addresses that the pool gives: the 16-byte form, or no bytes.
unfoldable pub ipv4 : Option ℕ → Option ℕ → Option ℕ → Option ℕ → Bytes
ipv4 (some w) (some x) (some y) (some z) =
    if leb w 255 && leb x 255 && leb y 255 && leb z 255
    then 0 ∷ 0 ∷ 0 ∷ 0 ∷ 0 ∷ 0 ∷ 0 ∷ 0 ∷ 0 ∷ 0 ∷ 255 ∷ 255 ∷ w ∷ x ∷ y ∷ z ∷ []
    else []
ipv4 _ _ _ _ = []

unfoldable pub ipv4_parts : List Bytes → Bytes
unfolding ipv4
ipv4_parts (a ∷ b ∷ c ∷ d ∷ []) = ipv4 (atoi a) (atoi b) (atoi c) (atoi d)
ipv4_parts _ = []

unfoldable pub parse_ip : Bytes → Bytes
unfolding ipv4_parts
parse_ip s = ipv4_parts (split b'.' s)

unfoldable pub listen_ips : List TargetRecord → List Bytes
listen_ips [] = []
listen_ips (rec ∷ recs) = rec.listen_ip ∷ listen_ips recs

-- The loop of `allocateLoopbackIPLocked`, with the number of rounds that are left and the index.
unfoldable pub first_unused : ℕ → ℕ → List Bytes → Option Bytes
first_unused zero i used = none
first_unused (suc n) i used =
    let later = first_unused n (suc i) used in
    if contains used (address i) then later else some (address i)

unfoldable pub allocate_loopback_ip : Map Bytes TargetRecord → Option Bytes
unfolding listen_ips
allocate_loopback_ip targets = first_unused size 0 (listen_ips (values targets))

pub data Attempt : Type 0 where
  done : TargetRecord → Attempt
  failed : Error → Attempt

unfoldable pub domain_key : Request → Bytes
domain_key req = req.domain_suffix ++ (0 ∷ req.dns_addr)

-- `domain`; `starts` says whether the DNS listener of a new manager starts.
unfoldable pub domain : Bool → Server → Request → Option Domain.Manager × Server
domain starts s req = elim (lookup (domain_key req) s.domains) [
  | some d ↦ (some d, s)
  | none ↦
      let d = Domain.new_manager req.domain_suffix in
      if starts
      then (some d, record s { domains = insert (domain_key req) d s.domains })
      else (none, s)
]

-- The second part of `ensureTarget` under the lock; `RegisterTarget` always returns.
unfoldable pub add_target : Server → Request → Domain.Manager → Attempt × Server
add_target s req dom = elim (lookup (target_key req) s.targets) [
  | some rec ↦ (done rec, s)
  | none ↦ elim (allocate_loopback_ip s.targets) [
    | none ↦ (failed pool_exhausted, s)
    | some listen_ip ↦ elim (Domain.register_target dom req.target (parse_ip listen_ip)) [
      | Domain.err e ↦ (failed (names e), s)
      | Domain.ok none ↦ (failed pool_exhausted, s)
      | Domain.ok (some (name, dom')) ↦
          let rec : TargetRecord = record {
            id = s.next_id;
            target = req.target;
            domain = name;
            listen_ip = listen_ip;
            sessions = 0;
            domain_manager = domain_key req;
          } in
          (
            done rec,
            record s {
              targets = insert (target_key req) rec s.targets;
              domains = insert (domain_key req) dom' s.domains;
              next_id = suc s.next_id;
            },
          )
    ]
  ]
]

unfoldable pub ensure_target : Bool → Server → Request → Attempt × Server
ensure_target starts s req =
    if is_empty req.target
      || is_empty req.ssh_path
      || is_empty req.domain_suffix
      || is_empty req.dns_addr
    then (failed target_incomplete, s)
    else elim (lookup (target_key req) s.targets) [
      | some rec ↦ (done rec, s)
      | none ↦
          let (started, s1) = domain starts s req in
          elim started [ none ↦ (failed dns_not_started, s1) | some dom ↦ add_target s1 req dom ]
    ]

-- The transport of a forward manager: a session of its target, the first one that the iteration over
-- the map meets.
unfoldable pub transport : Bytes → Map Bytes SessionRecord → Bytes × List Bytes × Bytes
transport key [] = ([], [], [])
transport key ((id, session) ∷ sessions) =
    let rest = transport key sessions in
    if session.target_key == key
    then (session.ssh_path, session.ssh_args, session.control_path)
    else rest

abbrev pub new_forwarder : Manager.Manager
new_forwarder = record { by_remote = []; stopped = false; effects = []; canceled = false }

unfoldable pub forwarder : Server → Bytes → Manager.Manager × Server
forwarder s key = elim (lookup key s.forwarders) [
  | some m ↦ (m, s)
  | none ↦ (new_forwarder, record s { forwarders = insert key new_forwarder s.forwarders })
]

abbrev pub env_of : Bool → Bytes × List Bytes × Bytes → Manager.Env
env_of opens (ssh_path, ssh_args, control_path) = record {
  ssh_path = ssh_path;
  ssh_args = ssh_args;
  control_path = control_path;
  opens = opens;
}

unfoldable pub ensure_target_port : Bool → Bool → Server → Request → Response × Server
ensure_target_port starts opens s req =
    if req.remote_port == 0
    then (refused port_required, s)
    else let (attempt, s1) = ensure_target starts s req in
      elim attempt [
        | failed e ↦ (refused e, s1)
        | done rec ↦
            let (m, s2) = forwarder s1 (target_key req) in
            let env = env_of opens (transport (target_key req) s2.sessions) in
            let (outcome, m2) =
              Manager.ensure env (λ m1. m1) m req.remote_port rec.listen_ip req.remote_host in
            let s3 = record s2 { forwarders = insert (target_key req) m2 s2.forwarders } in
            elim outcome [
              | Manager.failed e ↦ (refused (forwards e), s3)
              | Manager.forward f ↦ (forwarded f.local_port rec.domain rec.listen_ip, s3)
            ]
      ]

unfoldable pub remove_target_port : Server → Request → Response × Server
remove_target_port s req =
    if is_empty req.target || is_empty req.ssh_path || req.remote_port == 0
    then (refused removal_incomplete, s)
    else elim (lookup (target_key req) s.forwarders) [
      | none ↦ (removed, s)
      | some m ↦ (
        removed,
        record s {
          forwarders = insert (target_key req) (Manager.remove m req.remote_port) s.forwarders;
        },
      )
    ]

unfoldable pub item : Option TargetRecord → Manager.Entry → Forwarded
item none entry = record {
  target = [];
  domain = [];
  listen_ip = entry.listen_ip;
  local_port = entry.local_port;
  remote_port = entry.remote_port;
}
item (some rec) entry = record {
  target = rec.target;
  domain = rec.domain;
  listen_ip = entry.listen_ip;
  local_port = entry.local_port;
  remote_port = entry.remote_port;
}

unfoldable pub items : Option TargetRecord → List Manager.Entry → List Forwarded
unfolding item
items rec [] = []
items rec (entry ∷ entries) = item rec entry ∷ items rec entries

unfoldable pub list_all : Map Bytes TargetRecord → Map Bytes Manager.Manager → List Forwarded
unfolding items
list_all targets [] = []
list_all targets ((key, m) ∷ ms) =
    items (lookup key targets) (Manager.list m) ++ list_all targets ms

unfoldable pub list_ports : Server → Response
unfolding list_all
list_ports s = listed (list_all s.targets s.forwarders)
