-- ===== src/Locald/Session/LastLease.antt =====
-- What `releaseSessionNow` leaves of a target, by whether the lease was its last one.
use sshx.Prelude.{
  ◌-◌, ◌≡◌, true, false, none, some, is_empty, ◌∷◌, ltb, ◌||◌, ◌&&◌, if◌then◌else◌, ◌==◌, bytes_eq,
  nat_eq, eq_refl, arith, Option-cases, inl, inr,
}
use sshx.Prelude.Text.{Bytes}
use sshx.Prelude.Map.{lookup, delete, has, lookup-insert, lookup-delete}
use sshx.Forward.Manager
use sshx.Locald.{SessionRecord, Server, initiate_shutdown}
use sshx.Locald.Session.{
  stop_forwarder, drop_target, leave_target, shut_down_when, release_session_now,
}
use sshx.Locald.Session.Leases.{leave_target-cases}
use sshx.Locald.Session.Counting.{leases, Exact}
use sshx.Locald.Session.Release.{release_session_now-tables, one_less, release_session_now-Exact}

-- What the release of a lease leaves: the table of leases without it; the target of the lease
-- exactly when another lease uses it, with no forward manager when it goes; the other targets.
pub record Released (s : Server) (id : Bytes) (session : SessionRecord) (s' : Server) : Type 0 where
  pub other_leases :
      (other : Bytes)
      → lookup other s'.sessions ≡ (if id == other then none else lookup other s.sessions)
  pub still_exact : Exact s'
  pub target_kept :
      has (lookup session.target_key s'.targets)
      ≡ (has (lookup session.target_key s.targets) && ltb 0 (leases s'.sessions session.target_key))
  pub forwards_stopped :
      has (lookup session.target_key s.targets) ≡ true
      → has (lookup session.target_key s'.targets) ≡ false
      → lookup session.target_key s'.forwarders ≡ none
  -- While the target stays, its forward manager is left alone.
  pub forwards_kept :
      has (lookup session.target_key s'.targets) ≡ true
      → (s'.forwarders ≡ s.forwarders) × (s'.stopped ≡ s.stopped)
  -- When it goes, its forward manager is stopped, and no other.
  pub manager_stopped :
      (m : Manager.Manager)
      → has (lookup session.target_key s.targets) ≡ true
      → has (lookup session.target_key s'.targets) ≡ false
      → lookup session.target_key s.forwarders ≡ some m
      → s'.stopped ≡ Manager.stop m ∷ s.stopped
  pub other_forwards :
      (key : Bytes)
      → (session.target_key == key) ≡ false
      → lookup key s'.forwarders ≡ lookup key s.forwarders
  pub other_targets :
      (key : Bytes)
      → (session.target_key == key) ≡ false
      → lookup key s'.targets ≡ lookup key s.targets
  pub drains : s'.draining ≡ (s.draining || is_empty s'.sessions)
  pub shuts_down : s'.shut_down ≡ (s.shut_down || is_empty s'.sessions)

target-kept :
    (s : Server) (id : Bytes) (session : SessionRecord)
    → Exact s
    → lookup id s.sessions ≡ some session
    → has (lookup session.target_key (release_session_now s id).targets) ≡ (
        has (lookup session.target_key s.targets)
        && ltb 0 (leases (delete id s.sessions) session.target_key))
target-kept s id session (m, h) found =
    let key = session.target_key in
    let s1 = record s { sessions = delete id s.sessions } in
    let (es, et) = release_session_now-tables s id session found in
    let less = one_less s.sessions id session m found key in
    elim (leave_target-cases s1 key).1 [
      | inl (absent, e) ↦ ground (arith, et, e, absent)
      | inr (rec, held, inl (last, e)) ↦
          ground
            (arith, et, e, held, h key rec held, less, eq_refl key, lookup-delete key key s.targets)
      | inr (rec, held, inr (more, e)) ↦ ground (
        arith,
        et,
        e,
        held,
        h key rec held,
        less,
        eq_refl key,
        lookup-insert key key (record rec { sessions = rec.sessions - 1 }) s.targets,
      )
    ]

other_target-kept :
    (s : Server) (id : Bytes) (session : SessionRecord) (key : Bytes)
    → lookup id s.sessions ≡ some session
    → (session.target_key == key) ≡ false
    → lookup key (release_session_now s id).targets ≡ lookup key s.targets
other_target-kept s id session key found other =
    let mine = session.target_key in
    let s1 = record s { sessions = delete id s.sessions } in
    let (es, et) = release_session_now-tables s id session found in
    elim (leave_target-cases s1 mine).1 [
      | inl (absent, e) ↦ ground (arith, et, e)
      | inr (rec, held, inl (last, e)) ↦ ground (arith, et, e, lookup-delete mine key s.targets)
      | inr (rec, held, inr (more, e)) ↦ ground (
        arith,
        et,
        e,
        lookup-insert mine key (record rec { sessions = rec.sessions - 1 }) s.targets,
      )
    ]

forwarder_stopped : (s : Server) (key : Bytes) → lookup key (stop_forwarder s key).forwarders ≡ none
unfolding stop_forwarder
forwarder_stopped s key = ground (arith, lookup-delete key key s.forwarders, eq_refl key)

leave_target-forwarders :
    (s : Server) (key : Bytes)
    → has (lookup key s.targets) ≡ true
    → has (lookup key (leave_target s key).targets) ≡ false
    → lookup key (leave_target s key).forwarders ≡ none
unfolding leave_target drop_target
leave_target-forwarders s key h gone = elim (Option-cases (lookup key s.targets)) [
  | inl absent ↦ ground arith
  | inr (rec, found) ↦ ground (
    arith,
    forwarder_stopped s key,
    eq_refl key,
    lookup-insert key key (record rec { sessions = rec.sessions - 1 }) s.targets,
  )
]

leave_target_keeps :
    (s : Server) (key : Bytes)
    → has (lookup key (leave_target s key).targets) ≡ true
    → ((leave_target s key).forwarders ≡ s.forwarders) × ((leave_target s key).stopped ≡ s.stopped)
unfolding leave_target drop_target stop_forwarder
leave_target_keeps s key h = ground (arith, eq_refl key, lookup-delete key key s.targets)

leave_target_stops :
    (s : Server) (key : Bytes) (m : Manager.Manager)
    → has (lookup key s.targets) ≡ true
    → has (lookup key (leave_target s key).targets) ≡ false
    → lookup key s.forwarders ≡ some m
    → (leave_target s key).stopped ≡ Manager.stop m ∷ s.stopped
unfolding leave_target drop_target stop_forwarder
leave_target_stops s key m held gone found = elim (Option-cases (lookup key s.targets)) [
  | inl absent ↦ ground arith
  | inr (rec, e) ↦ ground (
    arith,
    eq_refl key,
    lookup-insert key key (record rec { sessions = rec.sessions - 1 }) s.targets,
  )
]

leave_target_others :
    (s : Server) (key other : Bytes)
    → (key == other) ≡ false
    → lookup other (leave_target s key).forwarders ≡ lookup other s.forwarders
unfolding leave_target drop_target stop_forwarder
leave_target_others s key other n = ground (arith, lookup-delete key other s.forwarders)

release_session_now-forwarders :
    (s : Server) (id : Bytes) (session : SessionRecord)
    → lookup id s.sessions ≡ some session
    → ((release_session_now s id).forwarders
        ≡ (leave_target
            (record s { sessions = delete id s.sessions })
            session.target_key).forwarders)
      × ((release_session_now s id).stopped
          ≡ (leave_target
              (record s { sessions = delete id s.sessions })
              session.target_key).stopped)
unfolding release_session_now shut_down_when initiate_shutdown
release_session_now-forwarders s id session h = ground arith

leave_target-draining :
    (s : Server) (key : Bytes)
    → ((leave_target s key).draining ≡ s.draining) × ((leave_target s key).shut_down ≡ s.shut_down)
unfolding leave_target drop_target stop_forwarder
leave_target-draining s key = ground arith

release_session_now-draining :
    (s : Server) (id : Bytes) (session : SessionRecord)
    → lookup id s.sessions ≡ some session
    → ((release_session_now s id).draining
        ≡ (s.draining || is_empty (release_session_now s id).sessions))
      × ((release_session_now s id).shut_down
          ≡ (s.shut_down || is_empty (release_session_now s id).sessions))
unfolding release_session_now shut_down_when initiate_shutdown
release_session_now-draining s id session h =
    ground (
      arith,
      leave_target-draining (record s { sessions = delete id s.sessions }) session.target_key,
    )

-- In a server whose records count exactly, `releaseSessionNow` gives up the one lease. Its target goes
-- exactly when no other lease uses it; then its forward manager is stopped, once, and taken out, and
-- else it is left alone. The other targets and managers stay, and the server drains and shuts down
-- when it was the last lease.
pub release_session_now-Released :
    (s : Server) (id : Bytes) (session : SessionRecord)
    → Exact s
    → lookup id s.sessions ≡ some session
    → Released s id session (release_session_now s id)
release_session_now-Released s id session exact found =
    let (es, et) = release_session_now-tables s id session found in
    let s1 = record s { sessions = delete id s.sessions } in
    record {
      other_leases = λ other. rw es (lookup-delete id other s.sessions);
      still_exact = release_session_now-Exact s id exact;
      target_kept = rw es (target-kept s id session exact found);
      forwards_stopped = λ held gone.
          rw (release_session_now-forwarders s id session found).0
            (leave_target-forwarders s1 session.target_key held (rw et at gone));
      forwards_kept = λ held.
          rw
            (
              (release_session_now-forwarders s id session found).0,
              (release_session_now-forwarders s id session found).1,
            )
            (leave_target_keeps s1 session.target_key (rw et at held));
      manager_stopped = λ m held gone forwards.
          rw (release_session_now-forwarders s id session found).1
            (leave_target_stops s1 session.target_key m held (rw et at gone) forwards);
      other_forwards = λ key other.
          rw (release_session_now-forwarders s id session found).0
            (leave_target_others s1 session.target_key key other);
      other_targets = λ key other. other_target-kept s id session key found other;
      drains = (release_session_now-draining s id session found).0;
      shuts_down = (release_session_now-draining s id session found).1;
    }
