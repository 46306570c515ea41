-- ===== src/Locald/Session/Counting.antt =====
-- The number that a target record keeps, and the leases in the table.
use sshx.Prelude.{
  ℕ, suc, ◌+◌, ◌-◌, ◌≤◌, ◌≡◌, Bool, none, some, if◌then◌else◌, ◌==◌, bytes_eq, nat_eq, eq_iff,
  eq_refl, arith, Option-cases, Bool-cases, inl, inr, ◌⊎◌,
}
use sshx.Prelude.Text.{Bytes}
use sshx.Prelude.Map.{
  Map, lookup, insert, delete, count, IsMap, lookup-insert, lookup-delete, delete_absent,
}
use sshx.Locald.{TargetRecord, SessionRecord, Server}
use sshx.Locald.Session.{join_target}

abbrev pub of_target : Bytes → SessionRecord → Bool
of_target key session = session.target_key == key

-- How many leases of a server use a target.
abbrev pub leases : Map Bytes SessionRecord → Bytes → ℕ
leases sessions key = count (of_target key) sessions

-- The numbers of the records are at most, or exactly, a number for each key.
abbrev pub Below : (Bytes → ℕ) → Map Bytes TargetRecord → Type 0
Below bound targets =
    (key : Bytes) (rec : TargetRecord) → lookup key targets ≡ some rec → rec.sessions ≤ bound key

abbrev pub Counts : (Bytes → ℕ) → Map Bytes TargetRecord → Type 0
Counts bound targets =
    (key : Bytes) (rec : TargetRecord) → lookup key targets ≡ some rec → rec.sessions ≡ bound key

-- Each record counts at most the leases of its target. Less is possible: a handler can register its
-- lease on a record that another handler has taken out since.
abbrev pub AtMostIn : Map Bytes SessionRecord → Map Bytes TargetRecord → Type 0
AtMostIn sessions targets = IsMap sessions × Below (leases sessions) targets

abbrev pub ExactIn : Map Bytes SessionRecord → Map Bytes TargetRecord → Type 0
ExactIn sessions targets = IsMap sessions × Counts (leases sessions) targets

abbrev pub AtMost : Server → Type 0
AtMost s = AtMostIn s.sessions s.targets

abbrev pub Exact : Server → Type 0
Exact s = ExactIn s.sessions s.targets

pub leases-insert :
    (sessions : Map Bytes SessionRecord) (id : Bytes) (session : SessionRecord) (key : Bytes)
    → lookup id sessions ≡ none
    → leases (insert id session sessions) key
      ≡ (if session.target_key == key then 1 else 0) + leases sessions key
unfolding insert
leases-insert sessions id session key h = ground (arith, delete_absent id sessions h)

pub join_target-cases :
    (targets : Map Bytes TargetRecord) (key : Bytes) (rec : TargetRecord)
    → (join_target targets key rec ≡ targets)
      ⊎ ((held : TargetRecord) × (lookup key targets ≡ some held)
          × (join_target targets key rec
              ≡ insert key (record held { sessions = suc held.sessions }) targets))
unfolding join_target
join_target-cases targets key rec = elim (Option-cases (lookup key targets)) [
  | inl absent ↦ inl (ground arith)
  | inr (held, found) ↦ elim (Bool-cases (held.id == rec.id)) [
    | inl same ↦ inr (held, found, ground arith)
    | inr other ↦ inl (ground arith)
  ]
]

module _ (bound bound' : Bytes → ℕ) (targets : Map Bytes TargetRecord) (k : Bytes) where
  pub Below-more :
      (rec : TargetRecord)
      → ((key : Bytes) → bound' key ≡ (if k == key then 1 else 0) + bound key)
      → Below bound targets
      → Below bound' (join_target targets k rec)
  Below-more rec more h = elim (join_target-cases targets k rec) [
    | inl same ↦ λ key r l. ground (arith, more key, h key r, same)
    | inr (held, found, e) ↦ λ key r l. ground (
      arith,
      more key,
      more k,
      eq_iff k key,
      eq_refl k,
      h key r,
      h k held found,
      e,
      lookup-insert k key (record held { sessions = suc held.sessions }) targets,
    )
  ]

  pub Below-less :
      (rec : TargetRecord)
      → ((key : Bytes) → bound key ≡ (if k == key then 1 else 0) + bound' key)
      → Below bound targets
      → lookup k targets ≡ some rec
      → Below bound' (insert k (record rec { sessions = rec.sessions - 1 }) targets)
  Below-less rec less h found key r l = ground (
    arith,
    less key,
    eq_iff k key,
    h key r,
    h k rec found,
    lookup-insert k key (record rec { sessions = rec.sessions - 1 }) targets,
  )

  pub Below-delete :
      ((key : Bytes) → bound key ≡ (if k == key then 1 else 0) + bound' key)
      → Below bound targets
      → Below bound' (delete k targets)
  Below-delete less h key r l = ground (arith, less key, h key r, lookup-delete k key targets)

  pub Below-absent :
      ((key : Bytes) → bound key ≡ (if k == key then 1 else 0) + bound' key)
      → Below bound targets
      → lookup k targets ≡ none
      → Below bound' targets
  Below-absent less h none_held key r l = ground (arith, less key, h key r, eq_iff k key)

  pub Counts-more :
      (rec : TargetRecord)
      → ((key : Bytes) → bound' key ≡ (if k == key then 1 else 0) + bound key)
      → Counts bound targets
      → lookup k targets ≡ some rec
      → Counts bound' (insert k (record rec { sessions = suc rec.sessions }) targets)
  Counts-more rec more h found key r l = ground (
    arith,
    more key,
    eq_iff k key,
    h key r,
    h k rec found,
    lookup-insert k key (record rec { sessions = suc rec.sessions }) targets,
  )

  pub Counts-less :
      (rec : TargetRecord)
      → ((key : Bytes) → bound key ≡ (if k == key then 1 else 0) + bound' key)
      → Counts bound targets
      → lookup k targets ≡ some rec
      → Counts bound' (insert k (record rec { sessions = rec.sessions - 1 }) targets)
  Counts-less rec less h found key r l = ground (
    arith,
    less key,
    eq_iff k key,
    eq_refl k,
    less k,
    h key r,
    h k rec found,
    lookup-insert k key (record rec { sessions = rec.sessions - 1 }) targets,
  )

  pub Counts-delete :
      ((key : Bytes) → bound key ≡ (if k == key then 1 else 0) + bound' key)
      → Counts bound targets
      → Counts bound' (delete k targets)
  Counts-delete less h key r l = ground (arith, less key, h key r, lookup-delete k key targets)

  pub Counts-absent :
      ((key : Bytes) → bound key ≡ (if k == key then 1 else 0) + bound' key)
      → Counts bound targets
      → lookup k targets ≡ none
      → Counts bound' targets
  Counts-absent less h none_held key r l = ground (arith, less key, h key r, eq_iff k key)
