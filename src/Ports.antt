-- ===== src/Ports.antt =====
-- internal/ports: which listening sockets are forwarded, and one entry for each port.
pub mod Merge
use sshx.Prelude.{
  ℕ, ◌≤◌, Bool, true, false, ◌&&◌, ◌||◌, Option, none, some, List, [], ◌∷◌, ◌++◌, ltb, leb,
  if◌then◌else◌, ◌==◌, nat_eq, bytes_eq,
}
use sshx.Prelude.Text.{Bytes, codes}
use sshx.Prelude.Map.{Map, lookup, insert, values}
use sshx.Prelude.Sort.{sort_by}

pub record Listener : Type 0 where
  pub port : ℕ
  pub connect_host : Bytes

-- `net.IP` as the source reads it: nil, an IPv4 address (`To4` answers), or another address, each
-- with the answers of `IsLoopback` and `IsUnspecified`.
pub data Ip : Type 0 where
  nil : Ip
  v4 : Bool → Bool → Ip
  v6 : Bool → Bool → Ip

abbrev pub min_forwardable_port : ℕ
min_forwardable_port = 1024

abbrev pub ipv4_host : Bytes
ipv4_host = codes "127.0.0.1"

abbrev pub ipv6_host : Bytes
ipv6_host = codes "::1"

abbrev pub listener : ℕ → Bytes → Option Listener
listener p h = some (record { port = p; connect_host = h })

host_of : Ip → Option Bytes
host_of nil = none
host_of (v4 loopback unspecified) = if loopback || unspecified then some ipv4_host else none
host_of (v6 loopback unspecified) =
    if loopback then some ipv6_host else if unspecified then some ipv4_host else none

unfoldable pub listener_from_addr : Ip → ℕ → Option Listener
unfolding host_of
listener_from_addr ip port =
    if ltb port min_forwardable_port || ltb 65535 port
    then none
    else elim (host_of ip) [ none ↦ none | some host ↦ listener port host ]

-- One round of the loop of `mergeListeners`.
unfoldable pub merge_one : Map ℕ Listener → Listener → Map ℕ Listener
merge_one by_port l = elim (lookup l.port by_port) [
  | none ↦ insert l.port l by_port
  | some existing ↦
      if existing.connect_host == ipv6_host && l.connect_host == ipv4_host
      then insert l.port l by_port
      else by_port
]

unfoldable pub merge_from : Map ℕ Listener → List Listener → Map ℕ Listener
merge_from by_port [] = by_port
merge_from by_port (l ∷ ls) = merge_from (merge_one by_port l) ls

unfoldable pub merge_groups : Map ℕ Listener → List (List Listener) → Map ℕ Listener
merge_groups by_port [] = by_port
merge_groups by_port (group ∷ groups) = merge_groups (merge_from by_port group) groups

unfoldable pub listeners_from_map : Map ℕ Listener → List Listener
listeners_from_map by_port = sort_by (λ (l : Listener). l.port) (values by_port)

unfoldable pub merge_listeners : List (List Listener) → List Listener
merge_listeners groups = listeners_from_map (merge_groups [] groups)

-- A connection as the operating system reports it.
pub record Connection : Type 0 where
  pub listens : Bool
  pub ip : Ip
  pub port : ℕ

unfoldable pub find_listeners : List Connection → List Listener
find_listeners [] = []
find_listeners (c ∷ conns) =
    let found = find_listeners conns in
    if c.listens
    then elim (listener_from_addr c.ip c.port) [ none ↦ found | some l ↦ l ∷ found ]
    else found

-- `ScanLoopbackListeners`; `conns` is nothing where the system call fails.
unfoldable pub scan_loopback_listeners : Option (List Connection) → Option (List Listener)
scan_loopback_listeners none = none
scan_loopback_listeners (some conns) = some (merge_listeners (find_listeners conns ∷ []))
