-- ===== src/Bridge/Ports/Scan.antt =====
-- A scan as seen at one port.
use sshx.Prelude.{
  ℕ, ◌+◌, ◌≡◌, refl, ◌∙◌, Bool, false, not, ◌&&◌, ◌||◌, List, [], ◌∷◌, ltb, leb, if◌then◌else◌,
  ◌==◌, nat_eq, contains, arith,
}
use sshx.Prelude.Map.{lookup-insert, lookup-delete}
use sshx.Prelude.Set.{
  add, Distinct, contains-add, contains-remove, add-Distinct, remove-Distinct, contains-append,
}
use sshx.Prelude.Sort.{contains-sort_by}
use sshx.Bridge.Ports.{
  Observed, misses, Progress, current_ports, observe, observe_all, miss, miss_all, apply_port_scan,
}

contains-current_ports :
    (ports current : List ℕ) (p : ℕ)
    → contains (current_ports current ports) p
      ≡ (contains current p || (ltb 0 p && contains ports p))
unfolding current_ports contains
contains-current_ports [] current p = ground arith
contains-current_ports (q ∷ ports) current p = ground (
  arith,
  contains-current_ports ports (if ltb 0 q then add q current else current) p,
  contains-add q p current,
)

abbrev pub seen : Observed → ℕ → Bool
seen s p = contains s.observed_ports p

-- One port of the scan, as it changes another port or itself.
seen-observe : (x : Progress) (q p : ℕ) → seen (observe x q).0 p ≡ (q == p || seen x.0 p)
unfolding observe
seen-observe (s, o) q p = contains-add q p s.observed_ports

misses-observe :
    (x : Progress) (q p : ℕ) → misses (observe x q).0 p ≡ (if q == p then 0 else misses x.0 p)
unfolding observe
misses-observe (s, o) q p = ground (arith, lookup-delete q p s.port_misses)

new-observe :
    (x : Progress) (q p : ℕ)
    → contains (observe x q).1 p ≡ (contains x.1 p || (q == p && not (seen x.0 p)))
unfolding observe contains
new-observe (s, o) q p = ground (arith, contains-append o (q ∷ []) p)

seen-observe_all :
    (ports : List ℕ) (x : Progress) (p : ℕ)
    → seen (observe_all x ports).0 p ≡ (contains ports p || seen x.0 p)
unfolding observe_all contains
seen-observe_all [] x p = refl
seen-observe_all (q ∷ ports) x p =
    ground (arith, seen-observe_all ports (observe x q) p, seen-observe x q p)

misses-observe_all :
    (ports : List ℕ) (x : Progress) (p : ℕ)
    → misses (observe_all x ports).0 p ≡ (if contains ports p then 0 else misses x.0 p)
unfolding observe_all contains
misses-observe_all [] x p = refl
misses-observe_all (q ∷ ports) x p =
    ground (arith, misses-observe_all ports (observe x q) p, misses-observe x q p)

new-observe_all :
    (ports : List ℕ) (x : Progress) (p : ℕ)
    → contains (observe_all x ports).1 p
      ≡ (contains x.1 p || (contains ports p && not (seen x.0 p)))
unfolding observe_all contains
new-observe_all [] x p = ground arith
new-observe_all (q ∷ ports) x p =
    ground (arith, new-observe_all ports (observe x q) p, new-observe x q p, seen-observe x q p)

observe_all-Distinct :
    (ports : List ℕ) (x : Progress)
    → Distinct x.0.observed_ports
    → Distinct (observe_all x ports).0.observed_ports
unfolding observe_all observe
observe_all-Distinct [] x h = h
observe_all-Distinct (q ∷ ports) x h =
    observe_all-Distinct ports (observe x q) (add-Distinct q x.0.observed_ports h)

empty : (p : ℕ) → contains [] p ≡ false
unfolding contains
empty p = refl

miss_all-Distinct :
    (current ports : List ℕ) (x : Progress)
    → Distinct x.0.observed_ports
    → Distinct (miss_all current x ports).0.observed_ports
unfolding miss_all miss
miss_all-Distinct current [] x h = h
miss_all-Distinct current (q ∷ ports) x h =
    miss_all-Distinct current ports (miss current x q)
      (ground (arith, remove-Distinct q x.0.observed_ports h))

module _ (current : List ℕ) where
  lost : Observed → ℕ → Bool
  lost s p = not (contains current p) && leb 2 (misses s p + 1)

  seen-miss :
      (x : Progress) (q p : ℕ)
      → seen (miss current x q).0 p ≡ (seen x.0 p && not (q == p && lost x.0 p))
  unfolding miss lost
  seen-miss (s, g) q p = ground (arith, contains-remove q p s.observed_ports)

  misses-miss :
      (x : Progress) (q p : ℕ)
      → misses (miss current x q).0 p ≡ (
          if q == p && not (contains current p)
          then (if lost x.0 p then 0 else misses x.0 p + 1)
          else misses x.0 p)
  unfolding miss lost
  misses-miss (s, g) q p =
      ground
        (arith, lookup-insert q p (misses s q + 1) s.port_misses, lookup-delete q p s.port_misses)

  gone-miss :
      (x : Progress) (q p : ℕ)
      → contains (miss current x q).1 p ≡ (contains x.1 p || (q == p && lost x.0 p))
  unfolding miss lost contains
  gone-miss (s, g) q p = ground (arith, contains-append g (q ∷ []) p)

  -- The loop over the observed ports, each of them once.
  record AtPort (ports : List ℕ) (x y : Progress) (p : ℕ) : Type 0 where
    seen_after : seen y.0 p ≡ (seen x.0 p && not (contains ports p && lost x.0 p))
    misses_after : misses y.0 p ≡ (
        if contains ports p && not (contains current p)
        then (if lost x.0 p then 0 else misses x.0 p + 1)
        else misses x.0 p)
    gone_after : contains y.1 p ≡ (contains x.1 p || (contains ports p && lost x.0 p))

  miss_all-AtPort :
      (ports : List ℕ) (x : Progress) (p : ℕ)
      → Distinct ports
      → AtPort ports x (miss_all current x ports) p
  unfolding miss_all contains lost
  miss_all-AtPort [] x p h = ground arith
  miss_all-AtPort (q ∷ ports) x p h =
      let ih = miss_all-AtPort ports (miss current x q) p h.1 in
      record {
        seen_after = ground (arith, ih.seen_after, seen-miss x q p, misses-miss x q p);
        misses_after = ground (arith, ih.misses_after, misses-miss x q p);
        gone_after = ground (arith, ih.gone_after, gone-miss x q p, misses-miss x q p);
      }

-- A port is in a scan if the scan lists it and it is positive.
abbrev pub scanned : List ℕ → ℕ → Bool
scanned ports p = ltb 0 p && contains ports p

-- The port has now been missed often enough to be gone.
abbrev pub missed_out : Observed → ℕ → Bool
missed_out s p = leb 2 (misses s p + 1)

-- What a scan makes of one port: an observed port stays while it is scanned or has been missed once,
-- its misses are counted in a row, it is reported as new when a scan shows it for the first time,
-- and as gone at the second miss in a row.
pub record ScanAt (s : Observed) (ports : List ℕ) (p : ℕ) : Type 0 where
  pub seen_after :
      seen (apply_port_scan s ports).0 p ≡ (scanned ports p || (seen s p && not (missed_out s p)))
  pub misses_after : misses (apply_port_scan s ports).0 p ≡ (
      if scanned ports p
      then 0
      else if seen s p
      then (if missed_out s p then 0 else misses s p + 1)
      else misses s p)
  pub new : contains (apply_port_scan s ports).1 p ≡ (scanned ports p && not (seen s p))
  pub gone :
      contains (apply_port_scan s ports).2 p ≡ (seen s p && not (scanned ports p) && missed_out s p)

-- Every scan does at every port what `ScanAt` says, where the observed ports are distinct.
pub apply_port_scan-ScanAt :
    (s : Observed) (ports : List ℕ) (p : ℕ) → Distinct s.observed_ports → ScanAt s ports p
unfolding apply_port_scan lost
apply_port_scan-ScanAt s ports p h =
    let current = current_ports [] ports in
    let x = observe_all (s, []) current in
    let at =
      miss_all-AtPort current x.0.observed_ports (x.0, []) p
        (observe_all-Distinct current (s, []) h) in
    let c = contains-current_ports ports [] p in
    let so = seen-observe_all current (s, []) p in
    let mo = misses-observe_all current (s, []) p in
    let no = new-observe_all current (s, []) p in
    let e = empty p in
    record {
      seen_after = ground (arith, at.seen_after, c, so, mo, e);
      misses_after = ground (arith, at.misses_after, c, so, mo, e);
      new = contains-sort_by (λ n. n) p x.1 ∙ ground (arith, no, c, e);
      gone =
          contains-sort_by (λ n. n) p (miss_all current (x.0, []) x.0.observed_ports).1
          ∙ ground (arith, at.gone_after, c, so, mo, e);
    }

pub apply_port_scan-Distinct :
    (s : Observed) (ports : List ℕ)
    → Distinct s.observed_ports
    → Distinct (apply_port_scan s ports).0.observed_ports
unfolding apply_port_scan
apply_port_scan-Distinct s ports h =
    let x = observe_all (s, []) (current_ports [] ports) in
    miss_all-Distinct (current_ports [] ports) x.0.observed_ports (x.0, [])
      (observe_all-Distinct (current_ports [] ports) (s, []) h)
