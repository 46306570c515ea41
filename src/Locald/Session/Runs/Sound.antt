-- ===== src/Locald/Session/Runs/Sound.antt =====
-- What holds in every run: the numbers of the records, and the addresses.
use sshx.Prelude.{
  ℕ, suc, ◌-◌, ◌≡◌, ◌⊎◌, refl, Bool, false, not, ◌||◌, none, some, is_empty, bytes_eq, nat_eq,
  arith, Option-cases, Bool-cases, inl, inr,
}
use sshx.Prelude.Text.{Bytes}
use sshx.Prelude.Map.{Map, lookup, insert, delete, IsMap, lookup-insert, insert-IsMap, delete-IsMap}
use sshx.Locald.{
  Request, TargetRecord, SessionRecord, Server, target_key, request_lease_id, request_compatible,
}
use sshx.Locald.Target.{Attempt, ensure_target}
use sshx.Locald.Target.Addresses.{Apart, insert-Apart, update-Apart, delete-Apart}
use sshx.Locald.Target.Ensure.{Added}
use sshx.Locald.Target.Results.{Outcome, refused, present, added, ensure_target-Outcome}
use sshx.Locald.Session.{
  begin_session, join_target, new_session, register_session, leave_target, release_session_now,
  release_session_with_grace,
}
use sshx.Locald.Session.Counting.{
  leases, Below, leases-insert, join_target-cases, Below-more, Below-less, Below-absent,
}
use sshx.Locald.Session.Leases.{leave_target-cases}
use sshx.Locald.Session.Release.{
  release_session_now-tables, one_less, leave_target-Below, nothing_released,
}

abbrev pub SoundIn : Map Bytes SessionRecord → Map Bytes TargetRecord → Type 0
SoundIn sessions targets = IsMap sessions × Below (leases sessions) targets × Apart targets

-- Each lease stands once, a record counts at most the leases of its target, and different targets
-- have different addresses.
abbrev pub Sound : Server → Type 0
Sound s = SoundIn s.sessions s.targets

Sound-Added :
    (s s' : Server) (req : Request) (rec : TargetRecord) → Added s req rec s' → Sound s → Sound s'
Sound-Added s s' req rec a (m, h, apart) =
    rw (a.rest_same.0, a.table)
      (
        m,
        λ key r l.
            ground (arith, h key r, a.no_session, lookup-insert (target_key req) key rec s.targets),
        insert-Apart s.targets (target_key req) rec a.not_in_use apart,
      )

pub Sound-Outcome :
    (s : Server) (req : Request) (o : Attempt × Server) → Outcome s req o → Sound s → Sound o.1
Sound-Outcome s req _ (refused e s' t c d) h = rw (t, c) h
Sound-Outcome s req _ (present rec found) h = h
Sound-Outcome s req _ (added rec s' absent a) h = Sound-Added s s' req rec a h

pub ensure_target-Sound :
    (starts : Bool) (s : Server) (req : Request) → Sound s → Sound (ensure_target starts s req).1
ensure_target-Sound starts s req =
    Sound-Outcome s req (ensure_target starts s req) (ensure_target-Outcome starts s req)

pub begin_session-cases :
    (starts : Bool) (s : Server) (req : Request)
    → ((begin_session starts s req).1 ≡ s)
      ⊎ ((begin_session starts s req).1 ≡ (ensure_target starts s req).1)
unfolding begin_session
begin_session-cases starts s req =
    elim (Bool-cases
      (is_empty (request_lease_id req) || not (request_compatible req) || s.draining)) [
        | inl stopped ↦ inl (ground arith)
        | inr goes_on ↦ inr (ground arith)
      ]

pub begin_session-Sound :
    (starts : Bool) (s : Server) (req : Request) → Sound s → Sound (begin_session starts s req).1
begin_session-Sound starts s req h = elim (begin_session-cases starts s req) [
  | inl same ↦ rw same h
  | inr e ↦ rw e (ensure_target-Sound starts s req h)
]

pub register_session-cases :
    (s : Server) (req : Request) (rec : TargetRecord) (conn : ℕ)
    → ((register_session s req rec conn).1 ≡ s)
      ⊎ ((lookup (request_lease_id req) s.sessions ≡ none)
          × (s.draining ≡ false)
          × ((register_session s req rec conn).1.sessions
              ≡ insert (request_lease_id req) (new_session req conn) s.sessions)
          × ((register_session s req rec conn).1.targets
              ≡ join_target s.targets (target_key req) rec))
unfolding register_session
register_session-cases s req rec conn =
    elim (Option-cases (lookup (request_lease_id req) s.sessions)) [
      | inr (session, taken) ↦ inl (ground arith)
      | inl free ↦ elim (Bool-cases s.draining) [
        | inl draining ↦ inl (ground arith)
        | inr serving ↦ inr (free, serving, ground arith, ground arith)
      ]
    ]

join_target-Apart :
    (targets : Map Bytes TargetRecord) (key : Bytes) (rec : TargetRecord)
    → Apart targets
    → Apart (join_target targets key rec)
join_target-Apart targets key rec apart = elim (join_target-cases targets key rec) [
  | inl same ↦ rw same apart
  | inr (held, found, e) ↦ rw e (
      update-Apart targets key held (record held { sessions = suc held.sessions }) found refl apart)
]

pub register_session-Sound :
    (s : Server) (req : Request) (rec : TargetRecord) (conn : ℕ)
    → Sound s
    → Sound (register_session s req rec conn).1
register_session-Sound s req rec conn (m, h, apart) = elim (register_session-cases s req rec conn) [
  | inl same ↦ rw same (m, h, apart)
  | inr (free, serving, es, et) ↦
      let id = request_lease_id req in
      let session = new_session req conn in
      rw (es, et)
        (
          insert-IsMap id session s.sessions m,
          Below-more (leases s.sessions) (leases (insert id session s.sessions)) s.targets
              (target_key req) rec (λ key. leases-insert s.sessions id session key free) h,
          join_target-Apart s.targets (target_key req) rec apart,
        )
]

leave_target-Apart :
    (s : Server) (key : Bytes) → Apart s.targets → Apart (leave_target s key).targets
leave_target-Apart s key apart = elim (leave_target-cases s key).1 [
  | inl (absent, e) ↦ rw e apart
  | inr (rec, found, inl (last, e)) ↦ rw e (delete-Apart s.targets key apart)
  | inr (rec, found, inr (more, e)) ↦
      rw e (
        update-Apart s.targets key rec (record rec { sessions = rec.sessions - 1 }) found refl
          apart)
]

pub release_session_now-Sound :
    (s : Server) (id : Bytes) → Sound s → Sound (release_session_now s id)
release_session_now-Sound s id (m, h, apart) = elim (Option-cases (lookup id s.sessions)) [
  | inl absent ↦ let (es, et) = nothing_released s id absent in rw (es, et) (m, h, apart)
  | inr (session, found) ↦
      let (es, et) = release_session_now-tables s id session found in
      let s1 = record s { sessions = delete id s.sessions } in
      rw (es, et)
        (
          delete-IsMap id s.sessions m,
          leave_target-Below s1 session.target_key (leases s.sessions) (leases s1.sessions)
              (one_less s.sessions id session m found) h,
          leave_target-Apart s1 session.target_key apart,
        )
]

pub grace-cases :
    (s : Server) (id : Bytes)
    → ((release_session_with_grace s id).1 ≡ s)
      ⊎ ((session : SessionRecord) × (lookup id s.sessions ≡ some session)
          × ((release_session_with_grace s id).1.sessions ≡ delete id s.sessions)
          × (((lookup session.target_key s.targets ≡ none)
                × ((release_session_with_grace s id).1.targets ≡ s.targets))
              ⊎ ((rec : TargetRecord) × (lookup session.target_key s.targets ≡ some rec)
                  × ((release_session_with_grace s id).1.targets
                      ≡ insert session.target_key
                          (record rec { sessions = rec.sessions - 1 })
                          s.targets))))
unfolding release_session_with_grace
grace-cases s id = elim (Option-cases (lookup id s.sessions)) [
  | inl absent ↦ inl (ground arith)
  | inr (session, found) ↦ elim (Option-cases (lookup session.target_key s.targets)) [
    | inl gone ↦ inr (session, found, ground arith, inl (gone, ground arith))
    | inr (rec, held) ↦ inr (session, found, ground arith, inr (rec, held, ground arith))
  ]
]

pub release_session_with_grace-Sound :
    (s : Server) (id : Bytes) → Sound s → Sound (release_session_with_grace s id).1
release_session_with_grace-Sound s id (m, h, apart) = elim (grace-cases s id) [
  | inl same ↦ rw same (m, h, apart)
  | inr (session, found, es, inl (gone, et)) ↦
      rw (es, et)
        (
          delete-IsMap id s.sessions m,
          Below-absent (leases s.sessions) (leases (delete id s.sessions)) s.targets
              session.target_key (one_less s.sessions id session m found) h gone,
          apart,
        )
  | inr (session, found, es, inr (rec, held, et)) ↦
      rw (es, et)
        (
          delete-IsMap id s.sessions m,
          Below-less (leases s.sessions) (leases (delete id s.sessions)) s.targets
              session.target_key rec (one_less s.sessions id session m found) h held,
          update-Apart s.targets session.target_key rec (record rec { sessions = rec.sessions - 1 })
              held refl apart,
        )
]
