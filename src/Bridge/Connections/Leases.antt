-- ===== src/Bridge/Connections/Leases.antt =====
-- A tick of `monitorLeases`: which clients stay, and when the server shuts down.
use sshx.Prelude.{
  ℕ, ◌+◌, ◌<◌, ◌≤◌, ◌≡◌, ◌↔◌, refl, Bool, true, false, not, ◌&&◌, ◌||◌, List, [], ◌∷◌, is_empty,
  ◌==◌, nat_eq, eq_iff, arith, leb, if-holds,
}
use sshx.Bridge.Clients.{Client, Server, take_out, remove_client, add_client}
use sshx.Bridge.Connections.{Timeouts, remove_expired, should_drain, monitor}

-- Whether the connection `i` is a client.
unfoldable pub has_id : List Client → ℕ → Bool
has_id [] i = false
has_id (c ∷ cs) i = c.id == i || has_id cs i

-- Each client has a connection of its own.
unfoldable pub AreDistinct : List Client → Type 0
unfolding has_id
AreDistinct [] = Unit {0}
AreDistinct (c ∷ cs) = (has_id cs c.id ≡ false) × AreDistinct cs

take_out-has_id :
    (cs : List Client) (c : Client) (i : ℕ)
    → AreDistinct cs
    → has_id (take_out cs c).1 i ≡ (has_id cs i && not (c.id == i))
unfolding take_out has_id AreDistinct
take_out-has_id [] c i h = refl
take_out-has_id (x ∷ cs) c i (n, h) =
    ground (arith, take_out-has_id cs c i h, eq_iff x.id c.id, eq_iff x.id i, eq_iff c.id i)

take_out-absent : (cs : List Client) (c : Client) → (take_out cs c).0 ≡ has_id cs c.id
unfolding take_out has_id
take_out-absent [] c = refl
take_out-absent (x ∷ cs) c = ground (arith, take_out-absent cs c)

take_out-AreDistinct :
    (cs : List Client) (c : Client) → AreDistinct cs → AreDistinct (take_out cs c).1
unfolding take_out has_id AreDistinct
take_out-AreDistinct [] c h = tt
take_out-AreDistinct (x ∷ cs) c (n, h) =
    ground (arith, take_out-AreDistinct cs c h, take_out-has_id cs c x.id h)

remove_client-has_id :
    (now : ℕ) (s : Server) (c : Client) (i : ℕ)
    → AreDistinct s.clients
    → (has_id (remove_client now s c).clients i ≡ (has_id s.clients i && not (c.id == i)))
      × AreDistinct (remove_client now s c).clients
unfolding remove_client
remove_client-has_id now s c i h = ground (
  arith,
  take_out-has_id s.clients c i h,
  take_out-absent s.clients c,
  take_out-AreDistinct s.clients c h,
  eq_iff c.id i,
)

is_expired : Timeouts → ℕ → (ℕ → ℕ) → ℕ → Bool
is_expired t now last_seen i = leb (last_seen i + t.heartbeat) now

remove_expired-has_id :
    (t : Timeouts) (now : ℕ) (last_seen : ℕ → ℕ) (cs : List Client) (s : Server) (i : ℕ)
    → AreDistinct s.clients
    → has_id (remove_expired t now last_seen cs s).clients i
      ≡ (has_id s.clients i && not (has_id cs i && is_expired t now last_seen i))
unfolding remove_expired has_id is_expired
remove_expired-has_id t now last_seen [] s i h = ground arith
remove_expired-has_id t now last_seen (c ∷ cs) s i h =
    let (e, h') = remove_client-has_id now s c i h in
    ground (
      arith,
      e,
      remove_expired-has_id t now last_seen cs (remove_client now s c) i h',
      remove_expired-has_id t now last_seen cs s i h,
      eq_iff c.id i,
    )

monitor-clients :
    (t : Timeouts) (now : ℕ) (last_seen : ℕ → ℕ) (connections : ℕ) (s : Server)
    → (monitor t now last_seen connections s).0.clients
      ≡ (remove_expired t now last_seen s.clients s).clients
unfolding monitor
monitor-clients t now last_seen connections s =
    let s' = remove_expired t now last_seen s.clients s in
    if-holds {A = Server × Bool} (λ r. r.0.clients ≡ s'.clients) (should_drain t now connections s')
      (λ _. refl) (λ _. refl)

monitor-drains :
    (t : Timeouts) (now : ℕ) (last_seen : ℕ → ℕ) (connections : ℕ) (s : Server)
    → (monitor t now last_seen connections s).1 ≡ true
    → (is_empty (monitor t now last_seen connections s).0.clients ≡ true)
      × (connections ≡ 0)
      × ((monitor t now last_seen connections s).0.draining ≡ true)
unfolding monitor should_drain
monitor-drains t now last_seen connections s e = ground arith

no_id : (cs : List Client) (i : ℕ) → is_empty cs ≡ true → has_id cs i ≡ false
unfolding has_id
no_id [] i e = refl
no_id (c ∷ cs) i e = cc

-- After a tick a connection is a client if and only if it was one and was heard of in time. The server
-- only shuts down when no connection is open, when each client that it had has been silent for too
-- long, and it accepts no client from then on.
pub monitor_lem :
    (t : Timeouts) (now : ℕ) (last_seen : ℕ → ℕ) (connections : ℕ) (s : Server)
    → AreDistinct s.clients
    → let (s', drains) = monitor t now last_seen connections s in
      ((i : ℕ)
        → (has_id s'.clients i ≡ true)
          ↔ ((has_id s.clients i ≡ true) × (now < last_seen i + t.heartbeat)))
      × (drains ≡ true
          → (connections ≡ 0)
            × ((i : ℕ) → has_id s.clients i ≡ true → last_seen i + t.heartbeat ≤ now)
            × ((later : ℕ) (c : Client) → add_client later s' c ≡ (false, s')))
monitor_lem t now last_seen connections s h =
    let s' = (monitor t now last_seen connections s).0 in
    let kept : (i : ℕ)
        → has_id s'.clients i
          ≡ (has_id s.clients i && not (has_id s.clients i && is_expired t now last_seen i)) =
      λ i.
        rw (monitor-clients t now last_seen connections s)
          (remove_expired-has_id t now last_seen s.clients s i h) in
    (
      (λ i. unfold is_expired in ground (arith, kept i)),
      (λ d.
          let (none_left, closed, draining) = monitor-drains t now last_seen connections s d in
          (
            closed,
            (λ i e. unfold is_expired in ground (arith, kept i, no_id s'.clients i none_left)),
            (λ later c. unfold add_client in rw draining),
          )),
    )
