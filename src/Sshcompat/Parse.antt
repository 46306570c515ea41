-- ===== src/Sshcompat/Parse.antt =====
-- `Parse` as a whole.
use native.Mathlib.Nat.{zero-add}
use sshx.Prelude.{
  ℕ, suc, ◌≡◌, refl, sym, ap, ◌∙◌, ◌↔◌, true, ◌||◌, some, List, [], ◌∷◌, ◌++◌, append_assoc,
  append-nil, if◌then◌else◌, ◌==◌, bytes_eq, contains, arith,
}
use sshx.Prelude.Text.{Bytes, codes}
use sshx.Sshcompat.{takes_value, is_target, Parsed, note_info, drop_no_wrap, scan, unparsed, parse}
use sshx.Sshcompat.Grammar.{Finds, needs_value, is_word, takes_value_lem, is_target_lem}
use sshx.Sshcompat.Scan.{scan-Finds, scan_sound}

-- The arguments without `--no-wrap`.
abbrev pub kept : List Bytes → List Bytes
kept [] = []
kept (arg ∷ rest) = if arg == codes "--no-wrap" then kept rest else arg ∷ kept rest

args-drop_no_wrap :
    (xs : List Bytes) (out : Parsed) → (drop_no_wrap out xs).args ≡ out.args ++ kept xs
unfolding drop_no_wrap
args-drop_no_wrap [] out = sym (append-nil out.args)
args-drop_no_wrap (x ∷ xs) out = ground (
  arith,
  args-drop_no_wrap xs (record out { no_wrap = true }),
  args-drop_no_wrap xs (record out { args = out.args ++ x ∷ [] }),
  append_assoc out.args (x ∷ []) (kept xs),
)

no_wrap-drop_no_wrap :
    (xs : List Bytes) (out : Parsed)
    → (drop_no_wrap out xs).no_wrap ≡ (contains xs (codes "--no-wrap") || out.no_wrap)
unfolding drop_no_wrap contains
no_wrap-drop_no_wrap [] out = refl
no_wrap-drop_no_wrap (x ∷ xs) out = ground (
  arith,
  no_wrap-drop_no_wrap xs (record out { no_wrap = true }),
  no_wrap-drop_no_wrap xs (record out { args = out.args ++ x ∷ [] }),
)

target_index-drop_no_wrap :
    (xs : List Bytes) (out : Parsed) → (drop_no_wrap out xs).target_index ≡ out.target_index
unfolding drop_no_wrap
target_index-drop_no_wrap [] out = refl
target_index-drop_no_wrap (x ∷ xs) out = ground (
  arith,
  target_index-drop_no_wrap xs (record out { no_wrap = true }),
  target_index-drop_no_wrap xs (record out { args = out.args ++ x ∷ [] }),
)

scan_keeps :
    (xs : List Bytes) (i : ℕ) (out : Parsed)
    → ((scan i out xs).args ≡ out.args) × ((scan i out xs).no_wrap ≡ out.no_wrap)
unfolding scan
scan_keeps [] i out = (refl, refl)
scan_keeps (a ∷ []) i out = ground arith
scan_keeps (a ∷ v ∷ rest) i out = ground (
  arith,
  scan_keeps rest (suc (suc i)) (note_info a out),
  scan_keeps (v ∷ rest) (suc i) (note_info a out),
)

-- `Parse` takes every `--no-wrap` out of the arguments, keeps the others in their order, and
-- reports whether there was one.
pub parse_args :
    (args : List Bytes)
    → ((parse args).args ≡ kept args) × ((parse args).no_wrap ≡ contains args (codes "--no-wrap"))
unfolding parse
parse_args args =
    let out = drop_no_wrap unparsed args in
    let (a, n) = scan_keeps out.args 0 out in
    (a ∙ args-drop_no_wrap args unparsed, n ∙ no_wrap-drop_no_wrap args unparsed ∙ ground arith)

pub Finds-cast :
    {args args' cmd cmd' : List Bytes} {i i' : ℕ} {t t' : Bytes}
    → args ≡ args'
    → i ≡ i'
    → t ≡ t'
    → cmd ≡ cmd'
    → Finds args i t cmd
    → Finds args' i' t' cmd'
Finds-cast p q r s f = rw (← p, ← q, ← r, ← s) f

-- `Parse` finds a destination, its index and the remote command exactly when the arguments, without
-- `--no-wrap`, are options, a destination and a remote command, each option a word of its own. Here the
-- options that take the next word for their value are a dash and one of the letters that need a value,
-- and a destination is a word without a dash in front, or only a dash.
pub parse_iff_Finds :
    (args : List Bytes) (i : ℕ) (t : Bytes) (cmd : List Bytes)
    → (((parse args).target ≡ t)
          × ((parse args).target_index ≡ some i)
          × ((parse args).remote_command ≡ cmd)
        ↔ Finds (kept args) i t cmd)
      × ((a : Bytes) → (takes_value a ≡ needs_value a) × (is_target a ≡ is_word a))
unfolding parse
parse_iff_Finds args i t cmd =
    let out = drop_no_wrap unparsed args in
    let e : out.args ≡ kept args = args-drop_no_wrap args unparsed in
    (
      (
        λ (p, q, r).
            let (j, ij, f) =
              scan_sound out.args 0 i out (target_index-drop_no_wrap args unparsed) q in
            Finds-cast e (sym (ij ∙ zero-add j)) p r f,
        λ f.
            let (p, q, r) = scan-Finds (Finds-cast (sym e) refl refl refl f) 0 out in
            (p, q ∙ ap some (zero-add i), r),
      ),
      λ a. (takes_value_lem a, is_target_lem a),
    )

-- The index that `Parse` reports, from the arguments that it keeps.
pub target_index-parse :
    (args : List Bytes) {i : ℕ} {t : Bytes} {cmd : List Bytes}
    → Finds (parse args).args i t cmd
    → (parse args).target_index ≡ some i
target_index-parse args {i} {t} {cmd} f =
    ((parse_iff_Finds args i t cmd).0.1 (Finds-cast (parse_args args).0 refl refl refl f)).1
