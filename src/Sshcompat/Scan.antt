-- ===== src/Sshcompat/Scan.antt =====
-- `Parse` decides the relation of Grammar.antt.
use sshx.Prelude.{
  ℕ, zero, suc, ◌+◌, ◌≡◌, Option, none, some, List, [], ◌∷◌, ◌==◌, bytes_eq, arith, Bool-cases, inl,
  inr,
}
use sshx.Prelude.Text.{Bytes}
use sshx.Sshcompat.{Parsed, takes_value, is_target, dashes, note_info, scan}
use sshx.Sshcompat.Grammar.{Finds, bare, dashed}

pub Finds-nil : {i : ℕ} {t : Bytes} {cmd : List Bytes} → ¬ (Finds [] i t cmd)
Finds-nil f = elim f [ ]

none≢some : {o : Option ℕ} {i : ℕ} → o ≡ none → ¬ (o ≡ some i)
none≢some p q = cc

pub scan-Finds :
    {args cmd : List Bytes} {i : ℕ} {t : Bytes}
    → Finds args i t cmd
    → (s : ℕ) (out : Parsed)
    → ((scan s out args).target ≡ t)
      × ((scan s out args).target_index ≡ some (s + i))
      × ((scan s out args).remote_command ≡ cmd)
unfolding scan
scan-Finds (bare {cmd = []} p q) s out = ground arith
scan-Finds (bare {cmd = c ∷ cmd} p q) s out = ground arith
scan-Finds (dashed p) s out = ground arith
scan-Finds (Finds.flag {a} {rest = []} p q f) s out = absurd (Finds-nil f)
scan-Finds (Finds.flag {a} {rest = r ∷ rest} p q f) s out =
    ground (arith, scan-Finds f (suc s) (note_info a out))
scan-Finds (Finds.pair {a} p q f) s out =
    ground (arith, scan-Finds f (suc (suc s)) (note_info a out))

-- What the loop reports is in the relation.
abbrev Reports : ℕ → ℕ → List Bytes → Parsed → Type 0
Reports s i args r = (j : ℕ) × (i ≡ s + j) × Finds args j r.target r.remote_command

pub scan_sound :
    (args : List Bytes) (s i : ℕ) (out : Parsed)
    → out.target_index ≡ none
    → (scan s out args).target_index ≡ some i
    → Reports s i args (scan s out args)
unfolding scan
scan_sound [] s i out n h = cc
scan_sound (a ∷ []) s i out n h = elim (Bool-cases (a == dashes)) [
  | inl d ↦ absurd (none≢some n (rw d at h))
  | inr nd ↦ elim (Bool-cases (is_target a)) [
    | inl t ↦ rw (nd, t) (zero, ground arith, bare nd t)
    | inr nt ↦ absurd (none≢some n (rw (nd, nt) at h))
  ]
]
scan_sound (a ∷ v ∷ rest) s i out n h = elim (Bool-cases (a == dashes)) [
  | inl d ↦ rw d (suc zero, ground arith, dashed d)
  | inr nd ↦ elim (Bool-cases (is_target a)) [
    | inl t ↦ rw (nd, t) (zero, ground arith, bare nd t)
    | inr nt ↦ elim (Bool-cases (takes_value a)) [
      | inl tv ↦
          let (j, e, f) =
            scan_sound rest (suc (suc s)) i (note_info a out) n (rw (nd, nt, tv) at h) in
          rw (nd, nt, tv)
            (
              suc (suc j),
              omega arith,
              Finds.pair (record { not_dashes = nd; not_target = nt }) tv f,
            )
      | inr nv ↦
          let (j, e, f) =
            scan_sound (v ∷ rest) (suc s) i (note_info a out) n (rw (nd, nt, nv) at h) in
          rw (nd, nt, nv)
            (suc j, omega arith, Finds.flag (record { not_dashes = nd; not_target = nt }) nv f)
    ]
  ]
]
