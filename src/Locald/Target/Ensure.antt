-- ===== src/Locald/Target/Ensure.antt =====
-- `ensureTarget`: the target that it gives, and the tables after it.
use sshx.Prelude.{
  ℕ, suc, ◌<◌, ◌≡◌, refl, Bool, true, false, not, ◌&&◌, none, some, length, is_empty, if◌then◌else◌,
  ◌==◌, nat_eq, bytes_eq, eq_refl, arith, Option-cases, inl, inr,
}
use sshx.Prelude.Text.{Bytes}
use sshx.Prelude.Map.{Map, lookup, insert, lookup-insert}
use sshx.Loopback.{size, address}
use sshx.Domain
use sshx.Domain.Register.{register_target_total}
use sshx.Locald.{Request, TargetRecord, Server, target_key}
use sshx.Locald.Target.{
  done, parse_ip, allocate_loopback_ip, domain, domain_key, add_target, ensure_target,
}
use sshx.Locald.Target.Addresses.{
  allocate_loopback_ip_total, allocate_loopback_ip_sound, to4-parse_ip-address,
}

-- The outcome of a target that is added: a new record with the first unused address, and the answer
-- of its domain manager for its name.
pub record Added (s : Server) (req : Request) (rec : TargetRecord) (s' : Server) : Type 0 where
  pub index : ℕ
  pub in_pool : index < size
  pub addressed : rec.listen_ip ≡ address index
  pub not_in_use :
      (k : Bytes) (r : TargetRecord)
      → lookup k s.targets ≡ some r
      → (r.listen_ip == rec.listen_ip) ≡ false
  pub no_session : rec.sessions ≡ 0
  pub new_identity : (rec.id ≡ s.next_id) × (s'.next_id ≡ suc s.next_id)
  pub targets_after :
      (key : Bytes)
      → lookup key s'.targets ≡ (if target_key req == key then some rec else lookup key s.targets)
  pub table : s'.targets ≡ insert (target_key req) rec s.targets
  pub resolves :
      (dom : Domain.Manager) × (lookup (domain_key req) s'.domains ≡ some dom)
      × (Domain.lookup_name dom rec.domain ≡ Domain.to4 (parse_ip rec.listen_ip))
  pub rest_same :
      (s'.sessions ≡ s.sessions) × (s'.forwarders ≡ s.forwarders) × (s'.draining ≡ s.draining)

four_octets :
    (j : ℕ) (ip : Bytes)
    → j < size
    → ip ≡ address j
    → (ip4 : Bytes) × (Domain.to4 (parse_ip ip) ≡ some ip4)
four_octets j ip below e = elim (Option-cases (Domain.to4 (parse_ip ip))) [
  | inl wrong ↦ ground (arith, to4-parse_ip-address j below)
  | inr four ↦ four
]

pub add_target-Added :
    (s : Server) (req : Request) (dom : Domain.Manager) (ip : Bytes)
    → lookup (target_key req) s.targets ≡ none
    → allocate_loopback_ip s.targets ≡ some ip
    → (rec : TargetRecord) × (s' : Server) × (add_target s req dom ≡ (done rec, s'))
      × Added s req rec s'
unfolding add_target
add_target-Added s req dom ip absent given =
    let (j, below, e, fresh, first) = allocate_loopback_ip_sound s.targets ip given in
    let (ip4, four) = four_octets j ip below e in
    let (name, dom', runs, r) =
      Domain.Register.register_target_total dom req.target (parse_ip ip) ip4 four in
    let rec : TargetRecord = record {
      id = s.next_id;
      target = req.target;
      domain = name;
      listen_ip = ip;
      sessions = 0;
      domain_manager = domain_key req;
    } in
    let s' = record s {
      targets = insert (target_key req) rec s.targets;
      domains = insert (domain_key req) dom' s.domains;
      next_id = suc s.next_id;
    } in
    (
      rec,
      s',
      ground (arith, absent, given, runs),
      record {
        index = j;
        in_pool = below;
        addressed = e;
        not_in_use = fresh;
        no_session = refl;
        new_identity = (refl, refl);
        targets_after = λ key. lookup-insert (target_key req) key rec s.targets;
        table = refl;
        resolves = (
          dom',
          ground (
            arith,
            lookup-insert (domain_key req) (domain_key req) dom' s.domains,
            eq_refl (domain_key req),
          ),
          ground (arith, r.records_after name, eq_refl (Domain.normalize_suffix name), four),
        );
        rest_same = (refl, refl, refl);
      },
    )

pub weaken :
    (s s' : Server) (req : Request) (rec : TargetRecord) (domains : Map Bytes Domain.Manager)
    → Added (record s { domains = domains }) req rec s'
    → Added s req rec s'
weaken s s' req rec domains a = record {
  index = a.index;
  in_pool = a.in_pool;
  addressed = a.addressed;
  not_in_use = a.not_in_use;
  no_session = a.no_session;
  new_identity = a.new_identity;
  targets_after = a.targets_after;
  table = a.table;
  resolves = a.resolves;
  rest_same = a.rest_same;
}

-- A request that names a target.
unfoldable pub is_complete : Request → Bool
is_complete req =
    not (is_empty req.target)
    && not (is_empty req.ssh_path)
    && not (is_empty req.domain_suffix)
    && not (is_empty req.dns_addr)

-- `domain` leaves the targets and the leases alone.
pub domain-rest :
    (starts : Bool) (s : Server) (req : Request)
    → (domain starts s req).1 ≡ record s { domains = (domain starts s req).1.domains }
unfolding domain
domain-rest starts s req = ground arith

domain-starts :
    (s : Server) (req : Request) → (dom : Domain.Manager) × ((domain true s req).0 ≡ some dom)
unfolding domain
domain-starts s req = elim (Option-cases (lookup (domain_key req) s.domains)) [
  | inl absent ↦ (Domain.new_manager req.domain_suffix, ground arith)
  | inr (d, found) ↦ (d, ground arith)
]

ensure_target-new :
    (s : Server) (req : Request) (dom : Domain.Manager)
    → is_complete req ≡ true
    → lookup (target_key req) s.targets ≡ none
    → (domain true s req).0 ≡ some dom
    → ensure_target true s req ≡ add_target (domain true s req).1 req dom
unfolding ensure_target is_complete
ensure_target-new s req dom full absent started = ground arith

-- A complete request for a target that is not there yet adds it, when the DNS listener starts and
-- the pool has an address left.
pub ensure_target-Added :
    (s : Server) (req : Request)
    → is_complete req ≡ true
    → lookup (target_key req) s.targets ≡ none
    → length s.targets < size
    → (rec : TargetRecord) × (s' : Server) × (ensure_target true s req ≡ (done rec, s'))
      × Added s req rec s'
ensure_target-Added s req full absent few =
    let (dom, started) = domain-starts s req in
    let s1 : Server = record s { domains = (domain true s req).1.domains } in
    let same = domain-rest true s req in
    let (ip, given) = allocate_loopback_ip_total s.targets few in
    let (rec, s', runs, a) = add_target-Added s1 req dom ip absent given in
    (
      rec,
      s',
      ground (arith, ensure_target-new s req dom full absent started, same, runs),
      weaken s s' req rec (domain true s req).1.domains a,
    )
