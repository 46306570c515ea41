-- ===== src/Domain/Register.antt =====
-- `RegisterTarget` always finds a name, and changes one record.
use sshx.Prelude.{
  ℕ, zero, suc, ◌+◌, ◌<◌, ◌≤◌, ◌≡◌, ◌⊎◌, refl, ap, true, false, Option, none, some, [], ◌∷◌, length,
  if◌then◌else◌, ◌==◌, bytes_eq, eq_iff, contains, arith, Option-cases, Bool-cases, inl, inr,
}
use sshx.Prelude.Text.{Bytes}
use sshx.Prelude.Map.{Map, lookup, insert, has, keys, contains-keys, lookup-insert, lookup-delete}
use sshx.Prelude.Pigeonhole.{pigeonhole}
use sshx.Domain.{
  Manager, normalize_suffix, to4, ok, target_prefix, candidate_name, free_suffix, register_target,
  unregister, lookup_name,
}
use sshx.Domain.Names.{target_prefix-IsLabelByte, key-injective}

abbrev key : Manager → Bytes → ℕ → Bytes
key m p n = normalize_suffix (candidate_name m p n)

no_value : {o : Option Bytes} → has o ≡ false → o ≡ none
no_value {o} h = ground arith

some_is_none : {n : ℕ} → ¬ (some n ≡ none)
some_is_none e = cc

le_split : {s i : ℕ} → s ≤ i → (s ≡ i) ⊎ (suc s ≤ i)
le_split h = grind arith

ne_of_lt : (i j : ℕ) {a b : Bytes} → i < j → (a ≡ b → i ≡ j) → (a == b) ≡ false
ne_of_lt i j {a} {b} lt inj = elim (Bool-cases (a == b)) [
  | inl e ↦ absurd (omega (arith, inj ((eq_iff a b).0 e)))
  | inr n ↦ n
]

-- A search that stops has met a free key; all keys before it are taken.
free_suffix_sound :
    (fuel : ℕ) (m : Manager) (p : Bytes) (s n : ℕ)
    → free_suffix fuel m p s ≡ some n
    → (lookup (key m p n) m.records ≡ none)
      × ((i : ℕ) → s ≤ i → i < n → has (lookup (key m p i) m.records) ≡ true)
unfolding free_suffix
free_suffix_sound zero m p s n h = cc
free_suffix_sound (suc fuel) m p s n h = elim (Bool-cases (has (lookup (key m p s) m.records))) [
  | inl taken ↦
      let (free, before) = free_suffix_sound fuel m p (suc s) n (rw taken at h) in
      (free, λ i lo hi. elim (le_split lo) [ inl e ↦ rw (← e) taken | inr lt ↦ before i lt hi ])
  | inr vacant ↦
      let e : s ≡ n = ground arith in
      (rw (← e) (no_value vacant), λ i lo hi. absurd (omega (arith, e)))
]

-- A search that the fuel stops has met that many taken keys.
free_suffix_full :
    (fuel : ℕ) (m : Manager) (p : Bytes) (s : ℕ)
    → free_suffix fuel m p s ≡ none
    → (i : ℕ) → s ≤ i
    → i < s + fuel
    → contains (keys m.records) (key m p i) ≡ true
unfolding free_suffix
free_suffix_full zero m p s h i lo hi = absurd (omega arith)
free_suffix_full (suc fuel) m p s h i lo hi =
    elim (Bool-cases (has (lookup (key m p s) m.records))) [
      | inl taken ↦ elim (le_split lo) [
        | inl e ↦ rw (← e, contains-keys (key m p s) m.records) taken
        | inr lt ↦ free_suffix_full fuel m p (suc s) (rw taken at h) i lt (omega arith)
      ]
      | inr vacant ↦ absurd (some_is_none (rw vacant at h))
    ]

length-keys : (m : Map Bytes Bytes) → length (keys m) ≡ length m
length-keys [] = refl
length-keys ((k, v) ∷ m) = ap suc (length-keys m)

-- The fuel of `RegisterTarget` is enough.
free_suffix_total :
    (m : Manager) (target : Bytes)
    → (n : ℕ) × (free_suffix (suc (length m.records)) m (target_prefix target) 0 ≡ some n)
free_suffix_total m target =
    let p = target_prefix target in
    let (labels, given) = target_prefix-IsLabelByte target in
    elim (Option-cases (free_suffix (suc (length m.records)) m p 0)) [
      | inl full ↦ absurd (
          omega (
            arith,
            length-keys m.records,
            pigeonhole (key m p) (suc (length m.records)) 0 (keys m.records)
                (λ i j lt below. ne_of_lt i j lt (key-injective p labels given m i j))
                (λ i lo hi. free_suffix_full (suc (length m.records)) m p 0 full i lo hi),
          ))
      | inr found ↦ found
    ]

-- The outcome of `RegisterTarget` for an IPv4 address: the first free name of the form prefix,
-- prefix-1, prefix-2 and so on below the suffix, and one more record, under the key of that name.
pub record Registers (m : Manager) (target ip4 : Bytes) (name : Bytes) (m' : Manager) : Type 0 where
  pub round : ℕ
  pub named : name ≡ candidate_name m (target_prefix target) round
  pub was_free : lookup_name m name ≡ none
  pub first :
      (i : ℕ) → i < round → has (lookup_name m (candidate_name m (target_prefix target) i)) ≡ true
  pub same_suffix : m'.suffix ≡ m.suffix
  pub records_after :
      (other : Bytes)
      → lookup_name m' other ≡ (
          if normalize_suffix name == normalize_suffix other then some ip4 else lookup_name m other)

register_target_runs :
    (m : Manager) (target ip ip4 : Bytes) (n : ℕ)
    → to4 ip ≡ some ip4
    → free_suffix (suc (length m.records)) m (target_prefix target) 0 ≡ some n
    → register_target m target ip
      ≡ ok (
          some (
            candidate_name m (target_prefix target) n,
            record m {
              records =
                  insert
                    (normalize_suffix (candidate_name m (target_prefix target) n))
                    ip4
                    m.records;
            },
          ))
unfolding register_target
register_target_runs m target ip ip4 n e found = ground arith

register_target-to4 :
    (m m' : Manager) (target ip name : Bytes)
    → register_target m target ip ≡ ok (some (name, m'))
    → (ip4 : Bytes) × (to4 ip ≡ some ip4)
unfolding register_target
register_target-to4 m m' target ip name h = ground arith

-- With an IPv4 address `RegisterTarget` returns, whatever is registered, with the first free name of
-- the target, which then has the address, while every other name keeps what it had.
pub register_target_total :
    (m : Manager) (target ip ip4 : Bytes)
    → to4 ip ≡ some ip4
    → (name : Bytes) × (m' : Manager) × (register_target m target ip ≡ ok (some (name, m')))
      × Registers m target ip4 name m'
unfolding lookup_name
register_target_total m target ip ip4 e =
    let (n, found) = free_suffix_total m target in
    let name = candidate_name m (target_prefix target) n in
    let m' : Manager = record m { records = insert (normalize_suffix name) ip4 m.records } in
    let (free, before) =
      free_suffix_sound (suc (length m.records)) m (target_prefix target) 0 n found in
    (
      name,
      m',
      register_target_runs m target ip ip4 n e found,
      record {
        round = n;
        named = refl;
        was_free = free;
        first = λ i lt. before i (omega arith) lt;
        same_suffix = refl;
        records_after =
            λ other. lookup-insert (normalize_suffix name) (normalize_suffix other) ip4 m.records;
      },
    )

-- Taking the name of a target out again gives each name the answer that it had before.
pub unregister-register_target :
    (m m' : Manager) (target ip name other : Bytes)
    → register_target m target ip ≡ ok (some (name, m'))
    → lookup_name (unregister m' name) other ≡ lookup_name m other
unfolding unregister lookup_name
unregister-register_target m m' target ip name other h =
    let (ip4, four) = register_target-to4 m m' target ip name h in
    let (name1, m1, runs, r) = register_target_total m target ip ip4 four in
    let e : ◌≡◌ {A = Bytes × Manager} (name1, m1) (name, m') = cc in
    let after = r.records_after other in
    ground (
      arith,
      h,
      runs,
      after,
      r.was_free,
      lookup-delete (normalize_suffix name) (normalize_suffix other) m'.records,
      eq_iff (normalize_suffix name) (normalize_suffix other),
    )
