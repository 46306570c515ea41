-- ===== src/Bridge/Ports.antt =====
-- internal/bridge/ports.go: which ports the server has announced to its clients.
-- `observedPorts` and the set of the current scan are lists without repetition.
pub mod Scan
pub mod Announce
use sshx.Prelude.{
  map, is_empty, ℕ, ◌+◌, Bool, true, false, not, Option, none, some, List, [], ◌∷◌, ◌++◌, ltb, leb,
  if◌then◌else◌, ◌==◌, nat_eq, contains,
}
use sshx.Prelude.Map.{Map, lookup, insert, delete}
use sshx.Prelude.Set.{add, remove}
use sshx.Prelude.Sort.{sort_by}
use sshx.Prelude.Text.{Bytes, codes}
use sshx.Ports.{Listener}

abbrev pub port_gone_missing_scans : ℕ
port_gone_missing_scans = 2

-- The fields of `Server` that a scan reads and writes.
pub record Observed : Type 0 where
  pub observed_ports : List ℕ
  pub port_misses : Map ℕ ℕ

-- A missing key of `portMisses` reads as 0.
abbrev pub misses : Observed → ℕ → ℕ
misses s port = elim (lookup port s.port_misses) [ none ↦ 0 | some n ↦ n ]

-- The first loop: the positive ports of a scan.
unfoldable pub current_ports : List ℕ → List ℕ → List ℕ
current_ports current [] = current
current_ports current (port ∷ ports) =
    current_ports (if ltb 0 port then add port current else current) ports

-- A state, and the ports that the loop has reported.
abbrev pub Progress : Type 0
Progress = Observed × List ℕ

unfoldable pub observe : Progress → ℕ → Progress
observe (s, observed) port = (
  record { observed_ports = add port s.observed_ports; port_misses = delete port s.port_misses },
  if contains s.observed_ports port then observed else observed ++ port ∷ [],
)

unfoldable pub observe_all : Progress → List ℕ → Progress
observe_all p [] = p
observe_all p (port ∷ ports) = observe_all (observe p port) ports

unfoldable pub miss : List ℕ → Progress → ℕ → Progress
miss current (s, gone) port =
    if contains current port
    then (s, gone)
    else if leb port_gone_missing_scans (misses s port + 1)
    then (
      record {
        observed_ports = remove port s.observed_ports;
        port_misses = delete port s.port_misses;
      },
      gone ++ port ∷ [],
    )
    else (record s { port_misses = insert port (misses s port + 1) s.port_misses }, gone)

unfoldable pub miss_all : List ℕ → Progress → List ℕ → Progress
miss_all current p [] = p
miss_all current p (port ∷ ports) = miss_all current (miss current p port) ports

abbrev pub sort_ints : List ℕ → List ℕ
sort_ints = sort_by (λ (n : ℕ). n)

-- The state after a scan, the ports that are new, and the ports that are gone.
unfoldable pub apply_port_scan : Observed → List ℕ → Observed × List ℕ × List ℕ
apply_port_scan s port_list =
    let current = current_ports [] port_list in
    let (s1, observed) = observe_all (s, []) current in
    let (s2, gone) = miss_all current (s1, []) s1.observed_ports in
    (s2, sort_ints observed, sort_ints gone)

unfoldable pub current_ports_sorted : Observed → List ℕ
current_ports_sorted s = sort_ints s.observed_ports

-- What is sent to a client about a port.
pub data Announcement : Type 0 where
  port_observed : Bytes → ℕ → Announcement
  port_gone : ℕ → Announcement

-- `hostByPort`: of two listeners on a port the later one counts; a missing port reads as "".
unfoldable pub hosts_by_port : Map ℕ Bytes → List Listener → Map ℕ Bytes
hosts_by_port hosts [] = hosts
hosts_by_port hosts (l ∷ ls) = hosts_by_port (insert l.port l.connect_host hosts) ls

abbrev pub host_of : Map ℕ Bytes → ℕ → Bytes
host_of hosts port = elim (lookup port hosts) [ none ↦ [] | some host ↦ host ]

unfoldable pub ports_of : List Listener → List ℕ
ports_of [] = []
ports_of (l ∷ ls) = l.port ∷ ports_of ls

-- `scanAndBroadcastPorts`, with the listeners of the scan, or none when it failed: what is sent to
-- every client, in order.
unfoldable pub scan_and_broadcast_ports :
    Observed → Option (List Listener) → Observed × List Announcement
unfolding hosts_by_port ports_of apply_port_scan
scan_and_broadcast_ports s none = (s, [])
scan_and_broadcast_ports s (some listeners) =
    let hosts = hosts_by_port [] listeners in
    let (s1, observed, gone) = apply_port_scan s (ports_of listeners) in
    (s1, map (λ port. port_observed (host_of hosts port) port) observed ++ map port_gone gone)

-- `sendCurrentPorts`: what a client is sent when it connects.
unfoldable pub send_current_ports : Observed → Option (List Listener) → List Announcement
unfolding hosts_by_port
send_current_ports s scan =
    let hosts : Map ℕ Bytes = elim scan [
      | none ↦ []
      | some listeners ↦ hosts_by_port [] listeners
    ] in
    map
      (λ port.
        port_observed
          (if is_empty (host_of hosts port) then codes "127.0.0.1" else host_of hosts port) port)
      (current_ports_sorted s)
