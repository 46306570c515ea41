-- ===== src/Locald/Session/Runs/Invariant.antt =====
-- The invariant of the tables along a run.
use sshx.Prelude.{ℕ, ◌≡◌, Bool, bytes_eq, arith, inl, inr}
use sshx.Prelude.Text.{Bytes}
use sshx.Prelude.Map.{lookup, lookup-delete}
use sshx.Locald.{
  Request, Server, initiate_shutdown, monitor_startup, accept, remove_connection, stop_resources,
}
use sshx.Locald.Target.{domain, add_target, forwarder}
use sshx.Locald.Target.Results.{add_target_any}
use sshx.Locald.Target.Addresses.{delete-Apart}
use sshx.Locald.Session.{cleanup_idle_target, handle_conn}
use sshx.Locald.Session.Runs.{
  Step, begins, registers, releases, releases_with_grace, cleans_up, answers, finds_domain,
  adds_target, finds_forwarder, forwards, times_out, accepts, removes, stops, Reaches, here,
  and_then, new_server,
}
use sshx.Locald.Session.Runs.Requests.{handle_conn-cases, drop_idle-cases}
use sshx.Locald.Session.Runs.Sound.{
  Sound, Sound-Outcome, ensure_target-Sound, begin_session-Sound, register_session-Sound,
  release_session_now-Sound, release_session_with_grace-Sound,
}

cleanup_idle_target-Sound : (s : Server) (key : Bytes) → Sound s → Sound (cleanup_idle_target s key)
cleanup_idle_target-Sound s key (m, h, apart) =
    let (es, cases) = drop_idle-cases s key in
    elim cases [
      | inl et ↦ rw (es, et) (m, h, apart)
      | inr (rec, found, idle, et) ↦
          rw (es, et)
            (
              m,
              λ k r l. ground (arith, h k r, lookup-delete key k s.targets),
              delete-Apart s.targets key apart,
            )
    ]

handle_conn-Sound :
    (starts opens : Bool) (s : Server) (req : Request)
    → Sound s
    → Sound (handle_conn starts opens s req).1
handle_conn-Sound starts opens s req h = elim (handle_conn-cases starts opens s req) [
  | inl (es, et) ↦ rw (es, et) h
  | inr (leased, es, et) ↦ rw (es, et) (ensure_target-Sound starts s req h)
]

monitor_startup-tables :
    (s : Server)
    → ((monitor_startup s).sessions ≡ s.sessions) × ((monitor_startup s).targets ≡ s.targets)
unfolding monitor_startup initiate_shutdown
monitor_startup-tables s = ground arith

accept-tables :
    (s : Server) (conn : ℕ)
    → ((accept s conn).1.sessions ≡ s.sessions) × ((accept s conn).1.targets ≡ s.targets)
unfolding accept
accept-tables s conn = ground arith

domain-tables :
    (starts : Bool) (s : Server) (req : Request)
    → ((domain starts s req).1.sessions ≡ s.sessions)
      × ((domain starts s req).1.targets ≡ s.targets)
unfolding domain
domain-tables starts s req = ground arith

forwarder-tables :
    (s : Server) (key : Bytes)
    → ((forwarder s key).1.sessions ≡ s.sessions) × ((forwarder s key).1.targets ≡ s.targets)
unfolding forwarder
forwarder-tables s key = ground arith

pub Step-Sound : {s t : Server} → Step s t → Sound s → Sound t
unfolding remove_connection stop_resources
Step-Sound (begins starts s req) h = begin_session-Sound starts s req h
Step-Sound (registers s req rec conn) h = register_session-Sound s req rec conn h
Step-Sound (releases s id) h = release_session_now-Sound s id h
Step-Sound (releases_with_grace s id) h = release_session_with_grace-Sound s id h
Step-Sound (cleans_up s key) h = cleanup_idle_target-Sound s key h
Step-Sound (answers starts opens s req) h = handle_conn-Sound starts opens s req h
Step-Sound (finds_domain starts s req) h =
    let (es, et) = domain-tables starts s req in rw (es, et) h
Step-Sound (adds_target s req dom e) h =
    Sound-Outcome s req (add_target s req dom) (add_target_any s req dom) h
Step-Sound (finds_forwarder s key) h = let (es, et) = forwarder-tables s key in rw (es, et) h
Step-Sound (forwards s key m m' e) h = h
Step-Sound (times_out s) h = let (es, et) = monitor_startup-tables s in rw (es, et) h
Step-Sound (accepts s conn) h = let (es, et) = accept-tables s conn in rw (es, et) h
Step-Sound (removes s conn) h = h
Step-Sound (stops s) h = h

Reaches-Sound : {s t : Server} → Reaches s t → Sound s → Sound t
Reaches-Sound (here s) h = h
Reaches-Sound (and_then step run) h = Reaches-Sound run (Step-Sound step h)

-- In every run of a new server, whatever order the steps of its handlers come in, each lease stands once, the
-- number of a target is at most the number of its leases, and no two targets share an address.
pub new_server-Sound : {s : Server} → Reaches new_server s → Sound s
unfolding lookup
new_server-Sound run =
    Reaches-Sound run (tt, λ key rec l. ground arith, λ k j r q hk hj e. ground arith)
