-- ===== src/Ports/Merge.antt =====
-- `mergeListeners` and the scan: one entry for each port, IPv4 before IPv6, sorted by port.
use mathlib.Core.List.{flatten}
use sshx.Prelude.{
  ℕ, ◌≡◌, refl, sym, ap, ◌∙◌, Bool, false, ◌&&◌, ◌||◌, Option, none, some, List, [], ◌∷◌, ◌++◌,
  if◌then◌else◌, ◌==◌, nat_eq, bytes_eq, bytes_beq, eq_iff, arith,
}
use sshx.Prelude.Text.{Bytes}
use sshx.Prelude.Map.{Map, lookup, insert, delete, lookup-insert, values}
use sshx.Prelude.Sort.{sort_by, find_by, find_by-sort_by}
use sshx.Ports.{
  Listener, ipv4_host, ipv6_host, merge_one, merge_from, merge_groups, listeners_from_map,
  merge_listeners,
}

abbrev pub port_of : Listener → ℕ
port_of l = l.port

-- The host of the first listener on a port, and whether one of them is on IPv4.
abbrev pub first_host : ℕ → List Listener → Option Bytes
first_host p [] = none
first_host p (l ∷ ls) = if l.port == p then some l.connect_host else first_host p ls

abbrev pub any_ipv4 : ℕ → List Listener → Bool
any_ipv4 p [] = false
any_ipv4 p (l ∷ ls) = (l.port == p && l.connect_host == ipv4_host) || any_ipv4 p ls

abbrev pub upgrade : Bool → Option Bytes → Option Bytes
upgrade ipv4 none = none
upgrade ipv4 (some h) = some (if h == ipv6_host && ipv4 then ipv4_host else h)

abbrev or_else : Option Bytes → Option Bytes → Option Bytes
or_else none o = o
or_else (some h) o = some h

abbrev pub host : Option Listener → Option Bytes
host none = none
host (some l) = some l.connect_host

host_ne : (ipv4_host == ipv6_host) ≡ false
unfolding bytes_beq
host_ne = refl

-- One round, as seen at one port.
host-merge_one :
    (p : ℕ) (m : Map ℕ Listener) (l : Listener)
    → host (lookup p (merge_one m l)) ≡ (
        if l.port == p
        then upgrade
            (l.connect_host == ipv4_host)
            (or_else (host (lookup p m)) (some l.connect_host))
        else host (lookup p m))
unfolding merge_one
host-merge_one p m l = ground (
  arith,
  lookup-insert l.port p l m,
  eq_iff l.connect_host ipv4_host,
  eq_iff l.connect_host ipv6_host,
  host_ne,
)

host-merge_from :
    (p : ℕ) (ls : List Listener) (m : Map ℕ Listener)
    → host (lookup p (merge_from m ls))
      ≡ upgrade (any_ipv4 p ls) (or_else (host (lookup p m)) (first_host p ls))
unfolding merge_from
host-merge_from p [] m = ground arith
host-merge_from p (l ∷ ls) m =
    rw (host-merge_from p ls (merge_one m l), host-merge_one p m l)
      (ground (arith, eq_iff l.connect_host ipv4_host, eq_iff l.connect_host ipv6_host, host_ne))

merge_from-append :
    (xs ys : List Listener) (m : Map ℕ Listener)
    → merge_from m (xs ++ ys) ≡ merge_from (merge_from m xs) ys
unfolding merge_from
merge_from-append [] ys m = refl
merge_from-append (x ∷ xs) ys m = merge_from-append xs ys (merge_one m x)

merge_groups-flatten :
    (gs : List (List Listener)) (m : Map ℕ Listener) → merge_groups m gs ≡ merge_from m (flatten gs)
unfolding merge_groups flatten merge_from
merge_groups-flatten [] m = refl
merge_groups-flatten (g ∷ gs) m =
    merge_groups-flatten gs (merge_from m g) ∙ sym (merge_from-append g (flatten gs) m)

-- The entries of the map stand under their own ports.
abbrev IsByPort : Map ℕ Listener → Type 0
IsByPort [] = Unit
IsByPort ((k, l) ∷ m) = (l.port ≡ k) × IsByPort m

delete-IsByPort : (k : ℕ) (m : Map ℕ Listener) → IsByPort m → IsByPort (delete k m)
unfolding delete
delete-IsByPort k [] h = tt
delete-IsByPort k ((j, l) ∷ m) h = ground (arith, delete-IsByPort k m h.1)

merge_from-IsByPort :
    (ls : List Listener) (m : Map ℕ Listener) → IsByPort m → IsByPort (merge_from m ls)
unfolding merge_from
merge_from-IsByPort [] m h = h
merge_from-IsByPort (l ∷ ls) m h =
    merge_from-IsByPort ls (merge_one m l)
      (unfold merge_one insert in ground (arith, delete-IsByPort l.port m h))

find_by-values :
    (p : ℕ) (m : Map ℕ Listener) → IsByPort m → find_by port_of p (values m) ≡ lookup p m
unfolding lookup
find_by-values p [] h = refl
find_by-values p ((k, l) ∷ m) h = ground (arith, find_by-values p m h.1)

-- After a merge there is one listener for each port of the groups, on the host of the first one, or
-- on 127.0.0.1 where that is ::1 and a later one is on 127.0.0.1.
pub host-merge_listeners :
    (groups : List (List Listener)) (p : ℕ)
    → host (find_by port_of p (merge_listeners groups))
      ≡ upgrade (any_ipv4 p (flatten groups)) (first_host p (flatten groups))
unfolding merge_listeners listeners_from_map
host-merge_listeners groups p =
    let ls = flatten groups in
    let m = merge_from [] ls in
    ap (λ n. host (find_by port_of p (sort_by port_of (values n)))) (merge_groups-flatten groups [])
    ∙ ap host (find_by-sort_by port_of p (values m))
    ∙ ap host (find_by-values p m (merge_from-IsByPort ls [] tt))
    ∙ unfold lookup in host-merge_from p ls []
