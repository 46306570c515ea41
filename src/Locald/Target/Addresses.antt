-- ===== src/Locald/Target/Addresses.antt =====
-- The pool of loopback addresses: who has which.
use sshx.Prelude.{
  ℕ, zero, suc, ◌+◌, ◌≤◌, ◌<◌, ◌≡◌, refl, ap, Bool, true, false, none, some, List, [], ◌∷◌, length,
  ◌==◌, nat_eq, bytes_eq, eq_iff, eq_refl, contains, arith, Option-cases, Bool-cases, inl, inr,
}
use sshx.Prelude.Finite.{passes, passes-lt}
use sshx.Prelude.Text.{Bytes, split, has_prefix}
use sshx.Prelude.Decimal.{itoa, atoi}
use sshx.Prelude.Map.{Map, lookup, insert, delete, has, values, lookup-insert, lookup-delete}
use sshx.Prelude.Pigeonhole.{pigeonhole}
use sshx.Loopback.{size, address, address-injective}
use sshx.Domain.{to4}
use sshx.Locald.{TargetRecord}
use sshx.Locald.Target.{parse_ip, listen_ips, first_unused, allocate_loopback_ip}

-- Different targets have different addresses.
abbrev pub Apart : Map Bytes TargetRecord → Type 0
Apart targets =
    (k j : Bytes) (r q : TargetRecord)
    → lookup k targets ≡ some r
    → lookup j targets ≡ some q
    → r.listen_ip ≡ q.listen_ip
    → k ≡ j

in_use :
    (targets : Map Bytes TargetRecord) (k : Bytes) (r : TargetRecord)
    → lookup k targets ≡ some r
    → contains (listen_ips (values targets)) r.listen_ip ≡ true
unfolding lookup listen_ips contains
in_use [] k r h = cc
in_use ((j, q) ∷ targets) k r h = ground (arith, in_use targets k r, eq_refl r.listen_ip)

-- The first address, from an index on, that is not in use.
first_unused_sound :
    (n i : ℕ) (used : List Bytes) (ip : Bytes)
    → first_unused n i used ≡ some ip
    → (j : ℕ) × (i ≤ j)
      × (j < i + n)
      × (ip ≡ address j)
      × (contains used ip ≡ false)
      × ((k : ℕ) → i ≤ k → k < j → contains used (address k) ≡ true)
unfolding first_unused
first_unused_sound zero i used ip h = cc
first_unused_sound (suc n) i used ip h = elim (Bool-cases (contains used (address i))) [
  | inl taken ↦
      let (j, lo, hi, e, unused, before) = first_unused_sound n (suc i) used ip (rw taken at h) in
      (
        j,
        omega (arith, lo),
        omega (arith, hi),
        e,
        unused,
        λ k above below. elim (Bool-cases (k == i)) [
          | inl same ↦ ground arith
          | inr later ↦ before k (ground arith) below
        ],
      )
  | inr vacant ↦ (
    i,
    omega arith,
    omega arith,
    ground arith,
    ground arith,
    λ k above below. absurd (omega (arith, above, below)),
  )
]

first_unused_full :
    (n i : ℕ) (used : List Bytes)
    → first_unused n i used ≡ none
    → (k : ℕ) → i ≤ k
    → k < i + n
    → contains used (address k) ≡ true
unfolding first_unused
first_unused_full zero i used h k lo hi = absurd (omega arith)
first_unused_full (suc n) i used h k lo hi = elim (Bool-cases (contains used (address i))) [
  | inl taken ↦ elim (Bool-cases (k == i)) [
    | inl same ↦ ground arith
    | inr later ↦ first_unused_full n (suc i) used (rw taken at h) k (ground arith) (ground arith)
  ]
  | inr vacant ↦ ground arith
]

length-listen_ips : (m : Map Bytes TargetRecord) → length (listen_ips (values m)) ≡ length m
unfolding listen_ips
length-listen_ips [] = refl
length-listen_ips ((k, r) ∷ m) = ap suc (length-listen_ips m)

address-apart : (i j : ℕ) → i < j → j < size → (address i == address j) ≡ false
address-apart i j lt below = elim (Bool-cases (address i == address j)) [
  | inl same ↦ absurd (
      omega (
        arith,
        address-injective i j (omega arith) below ((eq_iff (address i) (address j)).0 same),
      ))
  | inr n ↦ n
]

-- With fewer targets than addresses, `allocateLoopbackIPLocked` gives one.
pub allocate_loopback_ip_total :
    (targets : Map Bytes TargetRecord)
    → length targets < size
    → (ip : Bytes) × (allocate_loopback_ip targets ≡ some ip)
unfolding allocate_loopback_ip
allocate_loopback_ip_total targets few =
    let used = listen_ips (values targets) in
    elim (Option-cases (first_unused size 0 used)) [
      | inl full ↦ absurd (
          omega (
            arith,
            length-listen_ips targets,
            pigeonhole address size 0 used address-apart (first_unused_full size 0 used full),
          ))
      | inr given ↦ given
    ]

-- The address that it gives is the first one of the pool that no target has.
pub allocate_loopback_ip_sound :
    (targets : Map Bytes TargetRecord) (ip : Bytes)
    → allocate_loopback_ip targets ≡ some ip
    → (j : ℕ) × (j < size)
      × (ip ≡ address j)
      × ((k : Bytes) (r : TargetRecord) → lookup k targets ≡ some r → (r.listen_ip == ip) ≡ false)
      × ((i : ℕ) → i < j → contains (listen_ips (values targets)) (address i) ≡ true)
unfolding allocate_loopback_ip
allocate_loopback_ip_sound targets ip h =
    let (j, lo, hi, e, unused, before) =
      first_unused_sound size 0 (listen_ips (values targets)) ip h in
    (
      j,
      omega (arith, hi),
      e,
      λ k r l. ground (arith, in_use targets k r l, eq_iff r.listen_ip ip),
      λ i lt. before i (omega arith) lt,
    )

-- A new target keeps the addresses apart when its address is in no record.
pub insert-Apart :
    (targets : Map Bytes TargetRecord) (key : Bytes) (rec : TargetRecord)
    → ((k : Bytes) (r : TargetRecord)
        → lookup k targets ≡ some r
        → (r.listen_ip == rec.listen_ip) ≡ false)
    → Apart targets
    → Apart (insert key rec targets)
insert-Apart targets key rec fresh apart k j r q hk hj same = ground (
  arith,
  lookup-insert key k rec targets,
  lookup-insert key j rec targets,
  fresh k r,
  fresh j q,
  eq_iff r.listen_ip rec.listen_ip,
  eq_iff q.listen_ip rec.listen_ip,
  eq_iff key k,
  eq_iff key j,
  apart k j r q,
)

-- A record that changes its number keeps its address.
pub update-Apart :
    (targets : Map Bytes TargetRecord) (key : Bytes) (rec rec' : TargetRecord)
    → lookup key targets ≡ some rec
    → rec'.listen_ip ≡ rec.listen_ip
    → Apart targets
    → Apart (insert key rec' targets)
update-Apart targets key rec rec' held same_ip apart k j r q hk hj same = ground (
  arith,
  lookup-insert key k rec' targets,
  lookup-insert key j rec' targets,
  eq_iff key k,
  eq_iff key j,
  apart k j r q,
  apart key j rec q,
  apart k key r rec,
)

pub delete-Apart :
    (targets : Map Bytes TargetRecord) (key : Bytes) → Apart targets → Apart (delete key targets)
delete-Apart targets key apart k j r q hk hj same =
    ground (arith, lookup-delete key k targets, lookup-delete key j targets, apart k j r q)

-- Each address of the pool is an IPv4 address, by evaluation.
four_bytes : ℕ → Bool
four_bytes i = has (to4 (parse_ip (address i)))

all_four_bytes : passes four_bytes size ≡ true
unfolding passes four_bytes to4 parse_ip address split itoa atoi has_prefix
all_four_bytes = refl

pub to4-parse_ip-address : (i : ℕ) → i < size → has (to4 (parse_ip (address i))) ≡ true
unfolding four_bytes
to4-parse_ip-address i lt = passes-lt four_bytes size i all_four_bytes lt
