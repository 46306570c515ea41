-- ===== src/Locald/Target/Results.antt =====
-- What `ensureTarget` may give, for any request and any server.
use sshx.Prelude.{
  ◌≡◌, ◌⊎◌, refl, Bool, ◌||◌, none, some, is_empty, nat_eq, bytes_eq, arith, Option-cases,
  Bool-cases, inl, inr,
}
use sshx.Prelude.Text.{Bytes}
use sshx.Prelude.Map.{Map, lookup}
use sshx.Domain
use sshx.Locald.{
  Request, Error, pool_exhausted, target_incomplete, dns_not_started, TargetRecord, Server,
  target_key,
}
use sshx.Locald.Target.{
  Attempt, done, failed, allocate_loopback_ip, domain, add_target, ensure_target,
}
use sshx.Locald.Target.Ensure.{Added, add_target-Added, domain-rest, weaken}

-- The outcomes of `ensureTarget` for any request and any server.
pub data Outcome (s : Server) (req : Request) : Attempt × Server → Type 0 where
  refused :
      (e : Error) (s' : Server)
      → s'.targets ≡ s.targets
      → s'.sessions ≡ s.sessions
      → s'.draining ≡ s.draining
      → Outcome s req (failed e, s')
  present :
      (rec : TargetRecord)
      → lookup (target_key req) s.targets ≡ some rec
      → Outcome s req (done rec, s)
  added :
      (rec : TargetRecord) (s' : Server)
      → lookup (target_key req) s.targets ≡ none
      → Added s req rec s'
      → Outcome s req (done rec, s')

add_target-exhausted :
    (s : Server) (req : Request) (dom : Domain.Manager)
    → lookup (target_key req) s.targets ≡ none
    → allocate_loopback_ip s.targets ≡ none
    → add_target s req dom ≡ (failed pool_exhausted, s)
unfolding add_target
add_target-exhausted s req dom absent full = ground arith

add_target-Outcome :
    (s : Server) (req : Request) (dom : Domain.Manager) (domains : Map Bytes Domain.Manager)
    → lookup (target_key req) s.targets ≡ none
    → Outcome s req (add_target (record s { domains = domains }) req dom)
add_target-Outcome s req dom domains absent = elim (Option-cases (allocate_loopback_ip s.targets)) [
  | inl full ↦
      rw (add_target-exhausted (record s { domains = domains }) req dom absent full)
        (refused pool_exhausted (record s { domains = domains }) refl refl refl)
  | inr (ip, given) ↦
      let s1 = record s { domains = domains } in
      let (rec, s', runs, a) = add_target-Added s1 req dom ip absent given in
      rw runs (added rec s' absent (weaken s s' req rec domains a))
]

add_target_found :
    (s : Server) (req : Request) (dom : Domain.Manager) (rec : TargetRecord)
    → lookup (target_key req) s.targets ≡ some rec
    → add_target s req dom ≡ (done rec, s)
unfolding add_target
add_target_found s req dom rec found = ground arith

-- The same for a server that may have got the target in the meantime.
pub add_target_any :
    (s : Server) (req : Request) (dom : Domain.Manager) → Outcome s req (add_target s req dom)
add_target_any s req dom = elim (Option-cases (lookup (target_key req) s.targets)) [
  | inl absent ↦ add_target-Outcome s req dom s.domains absent
  | inr (rec, found) ↦ rw (add_target_found s req dom rec found) (present rec found)
]

ensure_target-cases :
    (starts : Bool) (s : Server) (req : Request)
    → ((e : Error) × (s' : Server) × (ensure_target starts s req ≡ (failed e, s'))
        × (s'.targets ≡ s.targets)
        × (s'.sessions ≡ s.sessions)
        × (s'.draining ≡ s.draining))
      ⊎ (((rec : TargetRecord) × (lookup (target_key req) s.targets ≡ some rec)
            × (ensure_target starts s req ≡ (done rec, s)))
          ⊎ ((dom : Domain.Manager) × (lookup (target_key req) s.targets ≡ none)
              × (ensure_target starts s req
                  ≡ add_target (record s { domains = (domain starts s req).1.domains }) req dom)))
unfolding ensure_target
ensure_target-cases starts s req =
    let same = domain-rest starts s req in
    elim (Bool-cases (
      is_empty req.target
      || is_empty req.ssh_path
      || is_empty req.domain_suffix
      || is_empty req.dns_addr)) [
        | inl missing ↦ inl (target_incomplete, s, ground arith, refl, refl, refl)
        | inr full ↦ elim (Option-cases (lookup (target_key req) s.targets)) [
          | inr (rec, found) ↦ inr (inl (rec, found, ground arith))
          | inl absent ↦ elim (Option-cases (domain starts s req).0) [
            | inl not_started ↦ inl (
              dns_not_started,
              (domain starts s req).1,
              ground arith,
              ground arith,
              ground arith,
              ground arith,
            )
            | inr (dom, started) ↦ inr (inr (dom, absent, ground arith))
          ]
        ]
      ]

pub ensure_target-Outcome :
    (starts : Bool) (s : Server) (req : Request) → Outcome s req (ensure_target starts s req)
ensure_target-Outcome starts s req = elim (ensure_target-cases starts s req) [
  | inl (e, s', runs, t, c, d) ↦ rw runs (refused e s' t c d)
  | inr (inl (rec, found, runs)) ↦ rw runs (present rec found)
  | inr (inr (dom, absent, runs)) ↦
      rw runs (add_target-Outcome s req dom (domain starts s req).1.domains absent)
]
