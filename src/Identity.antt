-- ===== src/Identity.antt =====
-- internal/identity/identity.go: which target a command line connects to.
-- `ResolveTarget` is modelled behind the run of `ssh -G`, whose output is an argument.
pub mod Probe
pub mod Resolve
use sshx.Prelude.{
  ℕ, suc, ◌+◌, ◌-◌, ◌*◌, Bool, true, false, not, ◌&&◌, ◌||◌, Option, none, some, List, [], ◌∷◌,
  length, take, drop, ltb, leb, is_empty, if◌then◌else◌, ◌==◌, nat_eq, bytes_eq, contains, ◌>>=◌,
}
use sshx.Prelude.Text.{
  Bytes, codes, has_prefix, before, after, contains_byte, to_lower, trim_space, split,
}
use sshx.Prelude.Map.{Map, lookup, insert, has}
use sshx.Prelude.Decimal.{atoi}

abbrev pub local_runtime_id : Bytes
local_runtime_id = codes "locald-v1.forward-v1"

unfoldable pub is_control_option : Bytes → Bool
is_control_option value =
    contains (codes "controlmaster" ∷ codes "controlpath" ∷ codes "controlpersist" ∷ [])
      (to_lower (trim_space (before b'=' value)))

abbrev pub value_options : List Bytes
value_options =
    codes "-B"
    ∷ codes "-b"
    ∷ codes "-c"
    ∷ codes "-E"
    ∷ codes "-e"
    ∷ codes "-F"
    ∷ codes "-I"
    ∷ codes "-i"
    ∷ codes "-J"
    ∷ codes "-l"
    ∷ codes "-m"
    ∷ codes "-o"
    ∷ codes "-p"
    ∷ codes "-w"
    ∷ []

abbrev pub action_options : List Bytes
action_options = codes "-D" ∷ codes "-L" ∷ codes "-O" ∷ codes "-R" ∷ codes "-S" ∷ codes "-W" ∷ []

unfoldable pub is_value_option : Bytes → Bool
is_value_option = contains value_options

unfoldable pub is_action_option : Bytes → Bool
is_action_option = contains action_options

-- `!strings.HasPrefix(arg, "-") || arg == "-"`
unfoldable pub is_destination : Bytes → Bool
is_destination arg = not (has_prefix arg (codes "-")) || arg == codes "-"

-- `len(arg) > 2 && options[arg[:2]]`
abbrev pub attached : (Bytes → Bool) → Bytes → Bool
attached options arg = ltb 2 (length arg) && options (take 2 arg)

abbrev pub dashes : Bytes
dashes = codes "--"

unfoldable pub config_probe_args : List Bytes → List Bytes
config_probe_args [] = []
config_probe_args (arg ∷ []) =
    if arg == dashes
    then []
    else if is_destination arg
    then arg ∷ []
    else if is_action_option arg || attached is_action_option arg || is_value_option arg
    then []
    else if attached is_value_option arg
    then (if not (take 2 arg == codes "-o") || not (is_control_option (drop 2 arg))
        then arg ∷ []
        else [])
    else []
config_probe_args (arg ∷ value ∷ rest) =
    let skipped = config_probe_args rest in
    let next = config_probe_args (value ∷ rest) in
    if arg == dashes
    then value ∷ []
    else if is_destination arg
    then arg ∷ []
    else if is_action_option arg
    then skipped
    else if attached is_action_option arg
    then next
    else if is_value_option arg
    then (if not (arg == codes "-o") || not (is_control_option value)
        then arg ∷ value ∷ skipped
        else skipped)
    else if attached is_value_option arg
    then (if not (take 2 arg == codes "-o") || not (is_control_option (drop 2 arg))
        then arg ∷ next
        else next)
    else next

pub record Target : Type 0 where
  pub user : Bytes
  pub hostname : Bytes
  pub port : ℕ
  pub host_key_alias : Bytes

pub data Failure : Type 0 where
  target_required probe_failed invalid_port incomplete : Failure

pub data Resolved : Type 0 where
  target : Target → Resolved
  failed : Failure → Resolved

-- One line of the output of `ssh -G`; the first value of a key stays.
unfoldable pub add_line : Map Bytes Bytes → Bytes → Map Bytes Bytes
add_line values line =
    let trimmed = trim_space line in
    let key = to_lower (trim_space (before 32 trimmed)) in
    if not (contains_byte trimmed 32) || has (lookup key values)
    then values
    else insert key (trim_space (after 32 trimmed)) values

unfoldable pub add_lines : Map Bytes Bytes → List Bytes → Map Bytes Bytes
add_lines values [] = values
add_lines values (line ∷ lines) = add_lines (add_line values line) lines

-- A missing key reads as the empty string.
unfoldable pub value_of : Bytes → Map Bytes Bytes → Bytes
value_of key values = elim (lookup key values) [ none ↦ [] | some v ↦ v ]

-- What `ResolveTarget` makes of the output.
unfoldable pub target_of : Map Bytes Bytes → Resolved
target_of values = elim (atoi (value_of (codes "port") values)) [
  | none ↦ failed invalid_port
  | some port ↦
      if port == 0 || ltb 65535 port
      then failed invalid_port
      else (let alias = to_lower (value_of (codes "hostkeyalias") values) in
          let user = value_of (codes "user") values in
          let hostname = to_lower (value_of (codes "hostname") values) in
          if is_empty user || is_empty hostname
          then failed incomplete
          else target (record {
            user = user;
            hostname = hostname;
            port = port;
            host_key_alias = if alias == codes "none" then [] else alias;
          }))
]

-- `probe` stands for the run of `ssh -G` on the arguments: its output, or nothing if it fails.
unfoldable pub resolve_target : (List Bytes → Option Bytes) → List Bytes → Resolved
resolve_target probe args =
    let probe_args = config_probe_args args in
    if is_empty probe_args then failed target_required else elim (probe (codes "-G" ∷ probe_args)) [
      | none ↦ failed probe_failed
      | some out ↦ target_of (add_lines [] (split b'\n' out))
    ]
