-- ===== src/Locald/Session/Runs/Draining.antt =====
-- A server that drains takes no lease any more.
use sshx.Prelude.{
  ℕ, ◌≡◌, refl, ap, ◌∙◌, Bool, true, some, nat_eq, bytes_eq, arith, Option-cases, inl, inr,
}
use sshx.Prelude.Text.{Bytes}
use sshx.Prelude.Map.{lookup, delete, lookup-delete}
use sshx.Locald.{
  Request, TargetRecord, SessionRecord, Server, initiate_shutdown, monitor_startup, accept,
  remove_connection, stop_resources,
}
use sshx.Locald.Target.{
  Attempt, domain, add_target, ensure_target, ensure_target_port, remove_target_port, forwarder,
}
use sshx.Locald.Target.Results.{
  Outcome, refused, present, added, ensure_target-Outcome, add_target_any,
}
use sshx.Locald.Session.{
  begin_session, register_session, leave_target, drop_target, stop_forwarder, shut_down_when,
  release_session_now, release_session_with_grace, drop_idle, cleanup_idle_target, handle,
  handle_conn,
}
use sshx.Locald.Session.Release.{release_session_now-tables, nothing_released}
use sshx.Locald.Session.Runs.{
  Step, begins, registers, releases, releases_with_grace, cleans_up, answers, finds_domain,
  adds_target, finds_forwarder, forwards, times_out, accepts, removes, stops, Reaches, here,
  and_then,
}
use sshx.Locald.Session.Runs.Requests.{handle_conn-cases, drop_idle-cases}
use sshx.Locald.Session.Runs.Sound.{grace-cases}

-- `t` drains, and has no lease that `s` does not have.
abbrev pub Quiet : Server → Server → Type 0
Quiet s t =
    (t.draining ≡ true)
    × ((id : Bytes) (session : SessionRecord)
        → lookup id t.sessions ≡ some session
        → lookup id s.sessions ≡ some session)

fewer :
    (s : Server) (id : Bytes) (t : Server)
    → t.sessions ≡ delete id s.sessions
    → t.draining ≡ true
    → Quiet s t
fewer s id t e d = (d, λ other session l. ground (arith, lookup-delete id other s.sessions))

unchanged : (s t : Server) → t.sessions ≡ s.sessions → t.draining ≡ true → Quiet s t
unchanged s t e d = (d, λ id session l. ground arith)

outcome-rest :
    (s : Server) (req : Request) (o : Attempt × Server)
    → Outcome s req o
    → (o.1.sessions ≡ s.sessions) × (o.1.draining ≡ s.draining)
outcome-rest s req _ (refused e s' t c d) = (c, d)
outcome-rest s req _ (present rec found) = (refl, refl)
outcome-rest s req _ (added rec s' absent a) = (a.rest_same.0, a.rest_same.2)

ensure_target-rest :
    (starts : Bool) (s : Server) (req : Request)
    → ((ensure_target starts s req).1.sessions ≡ s.sessions)
      × ((ensure_target starts s req).1.draining ≡ s.draining)
ensure_target-rest starts s req =
    outcome-rest s req (ensure_target starts s req) (ensure_target-Outcome starts s req)

begin_session-Quiet :
    (starts : Bool) (s : Server) (req : Request)
    → s.draining ≡ true
    → (begin_session starts s req).1 ≡ s
unfolding begin_session
begin_session-Quiet starts s req h = ground arith

register_session-Quiet :
    (s : Server) (req : Request) (rec : TargetRecord) (conn : ℕ)
    → s.draining ≡ true
    → (register_session s req rec conn).1 ≡ s
unfolding register_session
register_session-Quiet s req rec conn h = ground arith

shut-draining : (b : Bool) (s : Server) → s.draining ≡ true → (shut_down_when b s).draining ≡ true
unfolding shut_down_when initiate_shutdown
shut-draining b s h = ground arith

leave-draining : (s : Server) (key : Bytes) → (leave_target s key).draining ≡ s.draining
unfolding leave_target drop_target stop_forwarder
leave-draining s key = ground arith

release-draining :
    (s : Server) (id : Bytes) → s.draining ≡ true → (release_session_now s id).draining ≡ true
unfolding release_session_now shut_down_when initiate_shutdown leave_target drop_target
    stop_forwarder
release-draining s id h = ground arith

grace-draining :
    (s : Server) (id : Bytes) → (release_session_with_grace s id).1.draining ≡ s.draining
unfolding release_session_with_grace
grace-draining s id = ground arith

cleanup-draining :
    (s : Server) (key : Bytes) → s.draining ≡ true → (cleanup_idle_target s key).draining ≡ true
unfolding cleanup_idle_target drop_idle shut_down_when initiate_shutdown drop_target stop_forwarder
cleanup-draining s key h = ground arith

handle_conn-draining :
    (starts opens : Bool) (s : Server) (req : Request)
    → s.draining ≡ true
    → (handle_conn starts opens s req).1.draining ≡ true
unfolding handle_conn handle initiate_shutdown ensure_target_port forwarder remove_target_port
handle_conn-draining starts opens s req h = ground (arith, ensure_target-rest starts s req)

release-Quiet : (s : Server) (id : Bytes) → s.draining ≡ true → Quiet s (release_session_now s id)
release-Quiet s id h = elim (Option-cases (lookup id s.sessions)) [
  | inl absent ↦
      unchanged s (release_session_now s id) (nothing_released s id absent).0
        (release-draining s id h)
  | inr (session, found) ↦
      fewer s id (release_session_now s id) (release_session_now-tables s id session found).0
        (release-draining s id h)
]

grace-Quiet :
    (s : Server) (id : Bytes) → s.draining ≡ true → Quiet s (release_session_with_grace s id).1
grace-Quiet s id h =
    let t = (release_session_with_grace s id).1 in
    elim (grace-cases s id) [
      | inl same ↦ unchanged s t (ap (λ x. x.sessions) same) (grace-draining s id ∙ h)
      | inr (session, found, es, rest) ↦ fewer s id t es (grace-draining s id ∙ h)
    ]

handle_conn-Quiet :
    (starts opens : Bool) (s : Server) (req : Request)
    → s.draining ≡ true
    → Quiet s (handle_conn starts opens s req).1
handle_conn-Quiet starts opens s req h =
    let t = (handle_conn starts opens s req).1 in
    let d = handle_conn-draining starts opens s req h in
    elim (handle_conn-cases starts opens s req) [
      | inl (es, et) ↦ unchanged s t es d
      | inr (leased, es, et) ↦ unchanged s t (es ∙ (ensure_target-rest starts s req).0) d
    ]

monitor-Quiet : (s : Server) → s.draining ≡ true → Quiet s (monitor_startup s)
unfolding monitor_startup initiate_shutdown
monitor-Quiet s h = (ground arith, λ id session l. ground arith)

accept-Quiet : (s : Server) (conn : ℕ) → s.draining ≡ true → (accept s conn).1 ≡ s
unfolding accept
accept-Quiet s conn h = ground arith

domain-rest :
    (starts : Bool) (s : Server) (req : Request)
    → ((domain starts s req).1.sessions ≡ s.sessions)
      × ((domain starts s req).1.draining ≡ s.draining)
unfolding domain
domain-rest starts s req = ground arith

forwarder-rest :
    (s : Server) (key : Bytes)
    → ((forwarder s key).1.sessions ≡ s.sessions) × ((forwarder s key).1.draining ≡ s.draining)
unfolding forwarder
forwarder-rest s key = ground arith

draining-Quiet : {s t : Server} → Step s t → s.draining ≡ true → Quiet s t
unfolding remove_connection stop_resources
draining-Quiet (begins starts s req) h =
    rw (begin_session-Quiet starts s req h) (unchanged s s refl h)
draining-Quiet (registers s req rec conn) h =
    rw (register_session-Quiet s req rec conn h) (unchanged s s refl h)
draining-Quiet (releases s id) h = release-Quiet s id h
draining-Quiet (releases_with_grace s id) h = grace-Quiet s id h
draining-Quiet (cleans_up s key) h =
    unchanged s (cleanup_idle_target s key) (drop_idle-cases s key).0 (cleanup-draining s key h)
draining-Quiet (answers starts opens s req) h = handle_conn-Quiet starts opens s req h
draining-Quiet (finds_domain starts s req) h =
    let (es, ed) = domain-rest starts s req in unchanged s (domain starts s req).1 es (ed ∙ h)
draining-Quiet (adds_target s req dom e) h =
    let (es, ed) = outcome-rest s req (add_target s req dom) (add_target_any s req dom) in
    unchanged s (add_target s req dom).1 es (ed ∙ h)
draining-Quiet (finds_forwarder s key) h =
    let (es, ed) = forwarder-rest s key in unchanged s (forwarder s key).1 es (ed ∙ h)
draining-Quiet (forwards s key m m' e) h = (h, λ id session l. l)
draining-Quiet (times_out s) h = monitor-Quiet s h
draining-Quiet (accepts s conn) h = rw (accept-Quiet s conn h) (unchanged s s refl h)
draining-Quiet (removes s conn) h = (h, λ id session l. l)
draining-Quiet (stops s) h = (h, λ id session l. l)

-- From a server that drains no run leads to a server that takes leases, or to a lease that was not
-- there.
pub draining_is_final : {s t : Server} → Reaches s t → s.draining ≡ true → Quiet s t
draining_is_final (here s) h = (h, λ id session l. l)
draining_is_final (and_then step run) h =
    let (d, before) = draining-Quiet step h in
    let (e, after) = draining_is_final run d in
    (e, λ id session l. before id session (after id session l))
