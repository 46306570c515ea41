-- ===== src/Locald/Session/Release.antt =====
-- A release gives up one lease, in the table and in the record of its target.
use sshx.Prelude.{
  ℕ, ◌+◌, ◌≡◌, none, some, is_empty, if◌then◌else◌, ◌==◌, bytes_eq, nat_eq, arith, Option-cases,
  inl, inr,
}
use sshx.Prelude.Text.{Bytes}
use sshx.Prelude.Map.{Map, lookup, delete, IsMap, delete-IsMap, count-delete}
use sshx.Locald.{SessionRecord, Server}
use sshx.Locald.Session.{leave_target, release_session_now}
use sshx.Locald.Session.Leases.{leave_target-cases, targets-shut_down_when}
use sshx.Locald.Session.Counting.{
  Counts-less, Counts-delete, Counts-absent, of_target, leases, Below, Counts, AtMost, Exact,
  Below-less, Below-delete, Below-absent,
}

-- The tables after `releaseSessionNow` on a lease that is held.
pub release_session_now-tables :
    (s : Server) (id : Bytes) (session : SessionRecord)
    → lookup id s.sessions ≡ some session
    → ((release_session_now s id).sessions ≡ delete id s.sessions)
      × ((release_session_now s id).targets
          ≡ (leave_target
              (record s { sessions = delete id s.sessions })
              session.target_key).targets)
unfolding release_session_now
release_session_now-tables s id session h =
    let s1 = leave_target (record s { sessions = delete id s.sessions }) session.target_key in
    let shut = targets-shut_down_when (is_empty s1.sessions) s1 in
    let (kept, rest) =
      leave_target-cases (record s { sessions = delete id s.sessions }) session.target_key in
    (ground arith, ground arith)

pub one_less :
    (sessions : Map Bytes SessionRecord) (id : Bytes) (session : SessionRecord)
    → IsMap sessions
    → lookup id sessions ≡ some session
    → (key : Bytes)
    → leases sessions key
      ≡ (if session.target_key == key then 1 else 0) + leases (delete id sessions) key
one_less sessions id session m h key = count-delete (of_target key) id session sessions m h

pub leave_target-Below :
    (s : Server) (key : Bytes) (bound bound' : Bytes → ℕ)
    → ((other : Bytes) → bound other ≡ (if key == other then 1 else 0) + bound' other)
    → Below bound s.targets
    → Below bound' (leave_target s key).targets
leave_target-Below s key bound bound' less h = elim (leave_target-cases s key).1 [
  | inl (absent, e) ↦ rw e (Below-absent bound bound' s.targets key less h absent)
  | inr (rec, found, inl (last, e)) ↦ rw e (Below-delete bound bound' s.targets key less h)
  | inr (rec, found, inr (more, e)) ↦ rw e (Below-less bound bound' s.targets key rec less h found)
]

leave_target-Counts :
    (s : Server) (key : Bytes) (bound bound' : Bytes → ℕ)
    → ((other : Bytes) → bound other ≡ (if key == other then 1 else 0) + bound' other)
    → Counts bound s.targets
    → Counts bound' (leave_target s key).targets
leave_target-Counts s key bound bound' less h = elim (leave_target-cases s key).1 [
  | inl (absent, e) ↦ rw e (Counts-absent bound bound' s.targets key less h absent)
  | inr (rec, found, inl (last, e)) ↦ rw e (Counts-delete bound bound' s.targets key less h)
  | inr (rec, found, inr (more, e)) ↦ rw e (Counts-less bound bound' s.targets key rec less h found)
]

pub nothing_released :
    (s : Server) (id : Bytes)
    → lookup id s.sessions ≡ none
    → ((release_session_now s id).sessions ≡ s.sessions)
      × ((release_session_now s id).targets ≡ s.targets)
unfolding release_session_now
nothing_released s id h =
    let shut = targets-shut_down_when (is_empty s.sessions) s in (ground arith, ground arith)

pub release_session_now-AtMost :
    (s : Server) (id : Bytes) → AtMost s → AtMost (release_session_now s id)
release_session_now-AtMost s id (m, h) = elim (Option-cases (lookup id s.sessions)) [
  | inl absent ↦ let (es, et) = nothing_released s id absent in rw (es, et) (m, h)
  | inr (session, found) ↦
      let (es, et) = release_session_now-tables s id session found in
      let s1 = record s { sessions = delete id s.sessions } in
      rw (es, et)
        (
          delete-IsMap id s.sessions m,
          leave_target-Below s1 session.target_key (leases s.sessions) (leases s1.sessions)
              (one_less s.sessions id session m found) h,
        )
]

pub release_session_now-Exact :
    (s : Server) (id : Bytes) → Exact s → Exact (release_session_now s id)
release_session_now-Exact s id (m, h) = elim (Option-cases (lookup id s.sessions)) [
  | inl absent ↦ let (es, et) = nothing_released s id absent in rw (es, et) (m, h)
  | inr (session, found) ↦
      let (es, et) = release_session_now-tables s id session found in
      let s1 = record s { sessions = delete id s.sessions } in
      rw (es, et)
        (
          delete-IsMap id s.sessions m,
          leave_target-Counts s1 session.target_key (leases s.sessions) (leases s1.sessions)
              (one_less s.sessions id session m found) h,
        )
]
