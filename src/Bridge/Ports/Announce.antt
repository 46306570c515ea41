-- ===== src/Bridge/Ports/Announce.antt =====
-- Scans in a row, and what a client makes of the messages that `scanAndBroadcastPorts` sends.
use sshx.Prelude.{ℕ, ◌≡◌, refl, not, ◌&&◌, ◌||◌, List, [], ◌∷◌, nat_eq, contains, arith}
use sshx.Prelude.Set.{add, remove, Distinct, contains-add, contains-remove}
use sshx.Bridge.Ports.{Observed, apply_port_scan}
use sshx.Bridge.Ports.Scan.{scanned, seen, apply_port_scan-ScanAt, apply_port_scan-Distinct}

-- After two scans, the observed ports are those that one of the two shows: a port that flickers for
-- one scan is never reported gone, and no port outlives two scans without it.
pub seen_after_two :
    (s : Observed) (first second : List ℕ) (p : ℕ)
    → Distinct s.observed_ports
    → seen (apply_port_scan (apply_port_scan s first).0 second).0 p
      ≡ (scanned second p || scanned first p)
seen_after_two s first second p h =
    let a = apply_port_scan-ScanAt s first p h in
    let b =
      apply_port_scan-ScanAt (apply_port_scan s first).0 second p
        (apply_port_scan-Distinct s first h) in
    ground (arith, a.seen_after, a.misses_after, b.seen_after)

-- The ports that a client knows of, after `port.observed` and `port.gone` messages.
abbrev add_all : List ℕ → List ℕ → List ℕ
add_all known [] = known
add_all known (p ∷ ps) = add_all (add p known) ps

abbrev remove_all : List ℕ → List ℕ → List ℕ
remove_all known [] = known
remove_all known (p ∷ ps) = remove_all (remove p known) ps

contains-add_all :
    (ps known : List ℕ) (p : ℕ)
    → contains (add_all known ps) p ≡ (contains ps p || contains known p)
unfolding contains
contains-add_all [] known p = refl
contains-add_all (q ∷ ps) known p =
    ground (arith, contains-add_all ps (add q known) p, contains-add q p known)

contains-remove_all :
    (ps known : List ℕ) (p : ℕ)
    → contains (remove_all known ps) p ≡ (not (contains ps p) && contains known p)
unfolding contains
contains-remove_all [] known p = ground arith
contains-remove_all (q ∷ ps) known p =
    ground (arith, contains-remove_all ps (remove q known) p, contains-remove q p known)

-- The server's state and a client's, after a list of scans. The server sends the new ports of a
-- scan before the ones that are gone.
abbrev pub watch : Observed × List ℕ → List (List ℕ) → Observed × List ℕ
watch x [] = x
watch (s, known) (ports ∷ scans) =
    let (s', observed, gone) = apply_port_scan s ports in
    watch (s', remove_all (add_all known observed) gone) scans

-- A client that starts with the ports that the server observes knows, after any scans, exactly the
-- ports that the server observes then.
pub watch_agrees :
    (scans : List (List ℕ)) (s : Observed) (known : List ℕ) (p : ℕ)
    → Distinct s.observed_ports
    → ((q : ℕ) → contains known q ≡ seen s q)
    → contains (watch (s, known) scans).1 p ≡ seen (watch (s, known) scans).0 p
watch_agrees [] s known p h e = e p
watch_agrees (ports ∷ scans) s known p h e =
    let r = apply_port_scan s ports in
    watch_agrees scans r.0 (remove_all (add_all known r.1) r.2) p
      (apply_port_scan-Distinct s ports h)
      λ q.
        let at = apply_port_scan-ScanAt s ports q h in
        ground (
          arith,
          contains-remove_all r.2 (add_all known r.1) q,
          contains-add_all r.1 known q,
          e q,
          at.seen_after,
          at.new,
          at.gone,
        )
