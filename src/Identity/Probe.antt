-- ===== src/Identity/Probe.antt =====
-- `ConfigProbeArgs`: what is left for `ssh -G`.
use sshx.Prelude.{
  ℕ, suc, ◌≡◌, ◌⊎◌, inl, inr, refl, ap, ◌∙◌, Bool, true, false, not, ◌&&◌, ◌||◌, List, [], ◌∷◌,
  ◌++◌, append_assoc, All, take, drop, if◌then◌else◌, ◌==◌, bytes_eq, bytes_beq, contains,
  contains-every, every, arith,
}
use sshx.Prelude.Text.{Bytes, codes}
use sshx.Sshcompat.{takes_value, is_target, options_with_required_value}
use sshx.Sshcompat.Grammar.{IsOption, Finds, bare, dashed, Options, done}
use sshx.Sshcompat.Scan.{Finds-nil}
use sshx.Identity.{
  is_control_option, value_options, action_options, is_value_option, is_action_option,
  is_destination, attached, dashes, config_probe_args,
}

-- The words of an option that stay.
abbrev kept_if : Bool → Bytes → List Bytes
kept_if action a =
    if action
    then []
    else if attached is_value_option a
    then (if not (take 2 a == codes "-o") || not (is_control_option (drop 2 a)) then a ∷ [] else [])
    else []

abbrev kept_flag : Bytes → List Bytes
kept_flag a = kept_if (attached is_action_option a) a

abbrev kept_pair : Bytes → Bytes → List Bytes
kept_pair a v =
    if is_action_option a
    then []
    else if not (a == codes "-o") || not (is_control_option v)
    then a ∷ v ∷ []
    else []

kept_flag-cases : (a : Bytes) → (kept_flag a ≡ []) ⊎ (kept_flag a ≡ a ∷ [])
kept_flag-cases a = ground arith

kept_pair-cases : (a v : Bytes) → (kept_pair a v ≡ []) ⊎ (kept_pair a v ≡ a ∷ v ∷ [])
kept_pair-cases a v = ground arith

-- Each option that takes a value, `-Q` aside, is an action or a selector.
sorts_options :
    (every (λ a. takes_value a) value_options ≡ true)
    × (every (λ a. takes_value a) action_options ≡ true)
    × (every
          (λ a. is_value_option a || is_action_option a || a == codes "-Q")
          options_with_required_value
        ≡ true)
    × (every
          (λ a. not (attached is_action_option a) && not (attached is_value_option a))
          options_with_required_value
        ≡ true)
unfolding every takes_value contains bytes_beq is_value_option is_action_option
sorts_options = (refl, refl, refl, refl)

abbrev pub NotQuery : Bytes → Type 0
NotQuery a = (a == codes "-Q") ≡ false

module _ (a : Bytes) (o : IsOption a) where
  not_destination : is_destination a ≡ false
  unfolding is_destination is_target
  not_destination = o.not_target

  probe_flag :
      (r : Bytes) (rest : List Bytes)
      → takes_value a ≡ false
      → config_probe_args (a ∷ r ∷ rest) ≡ kept_flag a ++ config_probe_args (r ∷ rest)
  unfolding config_probe_args is_value_option is_action_option
  probe_flag r rest n = ground (
    arith,
    not_destination,
    contains-every takes_value value_options a sorts_options.0,
    contains-every takes_value action_options a sorts_options.1,
  )

  probe_pair :
      (v : Bytes) (rest : List Bytes)
      → takes_value a ≡ true
      → NotQuery a
      → config_probe_args (a ∷ v ∷ rest) ≡ kept_pair a v ++ config_probe_args rest
  unfolding config_probe_args takes_value
  probe_pair v rest y q = ground (
    arith,
    not_destination,
    contains-every _ options_with_required_value a sorts_options.2 y,
    contains-every _ options_with_required_value a sorts_options.3 y,
  )

-- What stays of a prefix of options, before anything.
abbrev Kept : List Bytes → List Bytes → Type 0
Kept xs sel =
    (y : Bytes) (ys : List Bytes)
    → config_probe_args (xs ++ y ∷ ys) ≡ sel ++ config_probe_args (y ∷ ys)

Kept-Options : {xs : List Bytes} → Options xs → All NotQuery xs → (sel : List Bytes) × Kept xs sel
Kept-Options done q = ([], λ y ys. refl)
Kept-Options (Options.flag {a} {rest = []} o n r) q = (kept_flag a, λ y ys. probe_flag a o y ys n)
Kept-Options (Options.flag {a} {rest = b ∷ rest} o n r) q =
    let (sel, k) = Kept-Options r q.1 in
    (kept_flag a ++ sel, λ y ys. probe_flag a o b (rest ++ y ∷ ys) n ∙ rw (k y ys, append_assoc))
Kept-Options (Options.pair {a} {v} {rest} o n r) q =
    let (sel, k) = Kept-Options r q.1.1 in
    (
      kept_pair a v ++ sel,
      λ y ys. probe_pair a o v (rest ++ y ∷ ys) n q.0 ∙ rw (k y ys, append_assoc),
    )

-- Options of an action: `-L spec` and its like, in two words or in one.
pub data Actions : List Bytes → Type 0 where
  nil : Actions []
  pair :
      {a v : Bytes} {rest : List Bytes}
      → IsOption a
      → is_action_option a ≡ true
      → Actions rest
      → Actions (a ∷ v ∷ rest)
  one_word :
      {a : Bytes} {rest : List Bytes}
      → IsOption a
      → takes_value a ≡ false
      → attached is_action_option a ≡ true
      → Actions rest
      → Actions (a ∷ rest)

action_pair :
    (a v : Bytes) (rest : List Bytes)
    → IsOption a
    → is_action_option a ≡ true
    → config_probe_args (a ∷ v ∷ rest) ≡ config_probe_args rest
unfolding config_probe_args
action_pair a v rest o p = rw (o.not_dashes, not_destination a o, p)

cons-Actions :
    {acts : List Bytes} (y : Bytes) (ys : List Bytes)
    → Actions acts
    → (b : Bytes) × (bs : List Bytes) × (acts ++ y ∷ ys ≡ b ∷ bs)
cons-Actions y ys nil = (y, ys, refl)
cons-Actions y ys (Actions.pair {a} {v} {rest} o p r) = (a, v ∷ (rest ++ y ∷ ys), refl)
cons-Actions y ys (one_word {a} {rest} o n p r) = (a, rest ++ y ∷ ys, refl)

drop-Actions :
    {acts : List Bytes} (y : Bytes) (ys : List Bytes)
    → Actions acts
    → config_probe_args (acts ++ y ∷ ys) ≡ config_probe_args (y ∷ ys)
drop-Actions y ys nil = refl
drop-Actions y ys (Actions.pair {a} {v} {rest} o p r) =
    action_pair a v (rest ++ y ∷ ys) o p ∙ drop-Actions y ys r
drop-Actions y ys (one_word {a} {rest = []} o n p r) =
    probe_flag a o y ys n ∙ ap (λ b. kept_if b a ++ config_probe_args (y ∷ ys)) p
drop-Actions y ys (one_word {a} {rest = b ∷ rest} o n p r) =
    probe_flag a o b (rest ++ y ∷ ys) n
    ∙ ap (λ t. kept_if t a ++ config_probe_args (b ∷ (rest ++ y ∷ ys))) p
    ∙ drop-Actions y ys r

-- Forwards and other actions, put anywhere among the options, do not change what is asked of
-- `ssh -G`, so a dynamic port has no part in the identity of a target.
pub config_probe_args_ignores :
    (xs acts ys : List Bytes) (y : Bytes)
    → Options xs
    → All NotQuery xs
    → Actions acts
    → config_probe_args (xs ++ (acts ++ y ∷ ys)) ≡ config_probe_args (xs ++ y ∷ ys)
config_probe_args_ignores xs acts ys y o q a =
    let (sel, k) = Kept-Options o q in
    let (b, bs, e) = cons-Actions y ys a in rw (k y ys, e, k b bs, ← e, drop-Actions y ys a)

module _ {a t : Bytes} {args : List Bytes} {j : ℕ} where
  kept_flag-Finds :
      IsOption a
      → takes_value a ≡ false
      → Finds args j t []
      → (k : ℕ) × Finds (kept_flag a ++ args) k t []
  kept_flag-Finds o n f = elim (kept_flag-cases a) [
    | inl e ↦ rw e (j, f)
    | inr e ↦ rw e (suc j, Finds.flag o n f)
  ]

  kept_pair-Finds :
      (v : Bytes)
      → IsOption a
      → takes_value a ≡ true
      → Finds args j t []
      → (k : ℕ) × Finds (kept_pair a v ++ args) k t []
  kept_pair-Finds v o n f = elim (kept_pair-cases a v) [
    | inl e ↦ rw e (j, f)
    | inr e ↦ rw e (suc (suc j), Finds.pair o n f)
  ]

-- The destination of a command line is the destination of what `ssh -G` is given, and no remote
-- command follows it: where the destination does not begin with a dash and `-Q` is not used.
pub config_probe_args-Finds :
    {args cmd : List Bytes} {i : ℕ} {t : Bytes}
    → Finds args i t cmd
    → is_target t ≡ true
    → (t == dashes) ≡ false
    → All NotQuery args
    → (j : ℕ) × Finds (config_probe_args args) j t []
unfolding config_probe_args is_destination is_target
config_probe_args-Finds (bare {t} {cmd = []} n p) h m q = rw (n, p) (0, bare n p)
config_probe_args-Finds (bare {t} {cmd = c ∷ cmd} n p) h m q = rw (n, p) (0, bare n p)
config_probe_args-Finds (dashed {t} e) h m q = rw e (0, bare m h)
config_probe_args-Finds (Finds.flag {rest = []} o n f) h m q = absurd (Finds-nil f)
config_probe_args-Finds (Finds.flag {a} {rest = b ∷ rest} o n f) h m q =
    let (j, g) = config_probe_args-Finds f h m q.1 in
    rw (probe_flag a o b rest n) (kept_flag-Finds o n g)
config_probe_args-Finds (Finds.pair {a} {v} {rest} o n f) h m q =
    let (j, g) = config_probe_args-Finds f h m q.1.1 in
    rw (probe_pair a o v rest n q.0) (kept_pair-Finds v o n g)
