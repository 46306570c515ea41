-- ===== src/Identity/Resolve.antt =====
-- `ResolveTarget`: what is read from the output of `ssh -G`, and what a target looks like.
use sshx.Prelude.{
  ◌<◌, ◌≤◌, ◌≡◌, ◌≢◌, refl, ◌&&◌, Option, none, some, List, [], ◌∷◌, if◌then◌else◌, ◌==◌, bytes_eq,
  eq_iff, arith, Option-cases, inl, inr,
}
use sshx.Prelude.Text.{Bytes, codes, before, after, contains_byte, to_lower, trim_space, split}
use sshx.Prelude.Map.{Map, lookup, lookup-insert}
use sshx.Identity.{
  Target, target, add_line, add_lines, value_of, target_of, resolve_target, config_probe_args,
}

-- The value that the first line with this key has.
abbrev pub first_value : Bytes → List Bytes → Option Bytes
first_value key [] = none
first_value key (line ∷ lines) =
    if contains_byte (trim_space line) 32
      && to_lower (trim_space (before 32 (trim_space line))) == key
    then some (trim_space (after 32 (trim_space line)))
    else first_value key lines

abbrev or_else : Option Bytes → Option Bytes → Option Bytes
or_else none o = o
or_else (some v) o = some v

lookup-add_line :
    (key : Bytes) (values : Map Bytes Bytes) (line : Bytes)
    → lookup key (add_line values line) ≡ or_else (lookup key values) (first_value key (line ∷ []))
unfolding add_line
lookup-add_line key values line =
    let k = to_lower (trim_space (before 32 (trim_space line))) in
    ground
      (arith, lookup-insert k key (trim_space (after 32 (trim_space line))) values, eq_iff k key)

lookup-add_lines_from :
    (key : Bytes) (lines : List Bytes) (values : Map Bytes Bytes)
    → lookup key (add_lines values lines) ≡ or_else (lookup key values) (first_value key lines)
unfolding add_lines
lookup-add_lines_from key [] values = ground arith
lookup-add_lines_from key (line ∷ lines) values =
    ground (
      arith,
      lookup-add_lines_from key lines (add_line values line),
      lookup-add_line key values line,
    )

-- Of the lines that `ssh -G` prints for a key, the first one counts.
pub lookup-add_lines :
    (key : Bytes) (lines : List Bytes) → lookup key (add_lines [] lines) ≡ first_value key lines
lookup-add_lines key lines = unfold lookup in lookup-add_lines_from key lines []

to_lower_idem : (s : Bytes) → to_lower (to_lower s) ≡ to_lower s
unfolding to_lower
to_lower_idem [] = refl
to_lower_idem (c ∷ s) = ground (arith, to_lower_idem s)

-- A resolved target has a user, a host name in lower case, a port from 1 to 65535, and no host key
-- alias `none`.
pub record IsValid (t : Target) : Type 0 where
  pub user_given : t.user ≢ []
  pub hostname_given : t.hostname ≢ []
  pub hostname_lower : to_lower t.hostname ≡ t.hostname
  pub port_positive : 0 < t.port
  pub port_bound : t.port ≤ 65535
  pub alias_not_none : t.host_key_alias ≢ codes "none"

target_of-IsValid :
    (values : Map Bytes Bytes) (t : Target) → target_of values ≡ target t → IsValid t
unfolding target_of
target_of-IsValid values t h = ground (
  arith,
  to_lower_idem (value_of (codes "hostname") values),
  eq_iff (to_lower (value_of (codes "hostkeyalias") values)) (codes "none"),
)

-- Every target that `ResolveTarget` returns, whatever `ssh -G` prints, is valid.
pub resolve_target-IsValid :
    (probe : List Bytes → Option Bytes) (args : List Bytes) (t : Target)
    → resolve_target probe args ≡ target t
    → IsValid t
unfolding resolve_target
resolve_target-IsValid probe args t h =
    elim (Option-cases (probe (codes "-G" ∷ config_probe_args args))) [
      | inl e ↦ ground arith
      | inr (out, e) ↦ target_of-IsValid (add_lines [] (split b'\n' out)) t (ground arith)
    ]
