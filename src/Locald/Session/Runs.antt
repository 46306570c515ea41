-- ===== src/Locald/Session/Runs.antt =====
-- Runs of the server: the steps of any number of handlers, in any order. A step goes from one take of
-- the lock to its release, but for `begins` and `answers`, which are what a handler does when no other
-- one comes between: their takes of the lock that change the server are steps of their own too.
pub mod Sound
pub mod Requests
pub mod Invariant
pub mod Draining
use sshx.Prelude.{ℕ, ◌≡◌, Bool, false, some, [], bytes_eq}
use sshx.Prelude.Text.{Bytes}
use sshx.Prelude.Map.{lookup, insert}
use sshx.Domain
use sshx.Forward.Manager
use sshx.Locald.Target.{domain, domain_key, add_target, forwarder}
use sshx.Locald.{
  Request, TargetRecord, Server, monitor_startup, accept, remove_connection, stop_resources,
}
use sshx.Locald.Session.{
  begin_session, register_session, release_session_now, release_session_with_grace,
  cleanup_idle_target, handle_conn,
}

-- A handler registers its lease some time after it began; other steps may lie between. `domain` and
-- the second take of `ensureTarget` stand for themselves, so that other steps may lie between them and
-- after the tests before them, and so do `forwarder` and what its manager does under its own lock.
pub data Step : Server → Server → Type 0 where
  begins : (starts : Bool) (s : Server) (req : Request) → Step s (begin_session starts s req).1
  registers :
      (s : Server) (req : Request) (rec : TargetRecord) (conn : ℕ)
      → Step s (register_session s req rec conn).1
  releases : (s : Server) (id : Bytes) → Step s (release_session_now s id)
  releases_with_grace : (s : Server) (id : Bytes) → Step s (release_session_with_grace s id).1
  cleans_up : (s : Server) (key : Bytes) → Step s (cleanup_idle_target s key)
  answers :
      (starts opens : Bool) (s : Server) (req : Request) → Step s (handle_conn starts opens s req).1
  finds_domain : (starts : Bool) (s : Server) (req : Request) → Step s (domain starts s req).1
  adds_target :
      (s : Server) (req : Request) (dom : Domain.Manager)
      → lookup (domain_key req) s.domains ≡ some dom
      → Step s (add_target s req dom).1
  finds_forwarder : (s : Server) (key : Bytes) → Step s (forwarder s key).1
  forwards :
      (s : Server) (key : Bytes) (m m' : Manager.Manager)
      → lookup key s.forwarders ≡ some m
      → Step s (record s { forwarders = insert key m' s.forwarders })
  times_out : (s : Server) → Step s (monitor_startup s)
  accepts : (s : Server) (conn : ℕ) → Step s (accept s conn).1
  removes : (s : Server) (conn : ℕ) → Step s (remove_connection s conn)
  stops : (s : Server) → Step s (stop_resources s)

pub data Reaches : Server → Server → Type 0 where
  here : (s : Server) → Reaches s s
  and_then : {s t u : Server} → Step s t → Reaches t u → Reaches s u

abbrev pub new_server : Server
new_server = record {
  forwarders = [];
  targets = [];
  domains = [];
  sessions = [];
  draining = false;
  shut_down = false;
  connections = [];
  next_id = 0;
  stopped = [];
}
