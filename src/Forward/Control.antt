-- ===== src/Forward/Control.antt =====
-- internal/forward/control.go: the command lines of `ssh -O forward` and `ssh -O cancel`.
pub mod Reaches
pub mod Passes
pub mod Operation
use sshx.Prelude.{
  ℕ, Bool, true, false, not, ◌&&◌, ◌||◌, List, [], ◌∷◌, ◌++◌, length, take, drop, ltb, leb,
  is_empty, if◌then◌else◌, ◌==◌, nat_eq, bytes_eq, contains,
}
use sshx.Prelude.Text.{
  Bytes, codes, has_prefix, before, contains_byte, to_lower, trim, trim_space, is_space,
}
use sshx.Prelude.Decimal.{itoa}
use sshx.Sshcompat.{parse, insert_before_target}

-- The first part of `strings.Cut(value, "=")`, as it is compared.
abbrev pub option_key : Bytes → Bytes
option_key value = to_lower (trim_space (before b'=' value))

unfoldable pub is_control_ssh_option : Bytes → Bool
is_control_ssh_option value =
    contains (codes "controlmaster" ∷ codes "controlpath" ∷ codes "controlpersist" ∷ [])
      (option_key value)

-- The caller has cut the value at `=`.
unfoldable pub is_forwarding_config_option : Bytes → Bool
is_forwarding_config_option key =
    contains
      (codes "clearallforwardings"
        ∷ codes "exitonforwardfailure"
        ∷ codes "localforward"
        ∷ codes "remoteforward"
        ∷ codes "dynamicforward"
        ∷ [])
      (to_lower (trim_space key))

all_t : Bytes → Bool
all_t [] = true
all_t (c ∷ s) = c == b't' && all_t s

-- `-t`, `-tt` and so on.
unfoldable pub is_tty_request_flag : Bytes → Bool
unfolding all_t
is_tty_request_flag [] = false
is_tty_request_flag (c ∷ []) = false
is_tty_request_flag (c ∷ d ∷ s) =
    if not (c == b'-') || not (d == b't') then false else all_t (d ∷ s)

-- `strings.HasPrefix(arg, "-x") && len(arg) > 2`
abbrev pub attached : Bytes → Bytes → Bool
attached arg name = has_prefix arg name && ltb 2 (length arg)

unfoldable pub strip_control_ssh_options : List Bytes → List Bytes
strip_control_ssh_options [] = []
strip_control_ssh_options (arg ∷ []) =
    if arg == codes "-S"
    then []
    else if attached arg (codes "-S")
    then []
    else if attached arg (codes "-o") && is_control_ssh_option (drop 2 arg)
    then []
    else arg ∷ []
strip_control_ssh_options (arg ∷ value ∷ rest) =
    let skipped = strip_control_ssh_options rest in
    let next = strip_control_ssh_options (value ∷ rest) in
    if arg == codes "-S"
    then skipped
    else if attached arg (codes "-S")
    then next
    else if arg == codes "-o"
    then (if is_control_ssh_option value then skipped else arg ∷ value ∷ skipped)
    else if attached arg (codes "-o") && is_control_ssh_option (drop 2 arg)
    then next
    else arg ∷ next

abbrev pub value_actions : List Bytes
value_actions = codes "-D" ∷ codes "-L" ∷ codes "-R" ∷ codes "-W" ∷ []

unfoldable pub value_action : Bytes → Bool
value_action = contains value_actions

-- The tests of `stripAuxiliarySSHOptions` below `valueActions[arg]`.
unfoldable pub is_auxiliary : Bytes → Bool
is_auxiliary arg =
    (ltb 2 (length arg) && value_action (take 2 arg))
    || (arg == codes "-N" || arg == codes "-f" || is_tty_request_flag arg)

unfoldable pub strip_auxiliary_ssh_options : List Bytes → List Bytes
strip_auxiliary_ssh_options [] = []
strip_auxiliary_ssh_options (arg ∷ []) =
    if value_action arg then [] else if is_auxiliary arg then [] else arg ∷ []
strip_auxiliary_ssh_options (arg ∷ value ∷ rest) =
    let skipped = strip_auxiliary_ssh_options rest in
    let next = strip_auxiliary_ssh_options (value ∷ rest) in
    if value_action arg then skipped else if is_auxiliary arg then next else arg ∷ next

unfoldable pub strip_forwarding_config_options : List Bytes → List Bytes
strip_forwarding_config_options [] = []
strip_forwarding_config_options (arg ∷ []) =
    if attached arg (codes "-o") && is_forwarding_config_option (before b'=' (drop 2 arg))
    then []
    else arg ∷ []
strip_forwarding_config_options (arg ∷ value ∷ rest) =
    let skipped = strip_forwarding_config_options rest in
    let next = strip_forwarding_config_options (value ∷ rest) in
    if arg == codes "-o" && is_forwarding_config_option (before b'=' value)
    then skipped
    else if attached arg (codes "-o") && is_forwarding_config_option (before b'=' (drop 2 arg))
    then next
    else arg ∷ next

unfoldable pub clean_ssh_args : List Bytes → List Bytes
clean_ssh_args args =
    strip_forwarding_config_options (strip_auxiliary_ssh_options (strip_control_ssh_options args))

abbrev pub control_options : Bytes → Bytes → Bytes → Bytes → List Bytes
control_options control_path operation direction forward_spec =
    codes "-S"
    ∷ control_path
    ∷ codes "-O"
    ∷ operation
    ∷ codes "-o"
    ∷ codes "ExitOnForwardFailure=yes"
    ∷ (b'-' ∷ direction)
    ∷ forward_spec
    ∷ []

unfoldable pub control_operation_args : List Bytes → Bytes → Bytes → Bytes → Bytes → List Bytes
control_operation_args ssh_args control_path operation direction forward_spec =
    insert_before_target (parse (clean_ssh_args ssh_args))
      (control_options control_path operation direction forward_spec)

abbrev is_bracket : ℕ → Bool
is_bracket c = c == b'[' || c == b']'

unfoldable pub normalize_remote_host : Bytes → Bytes
normalize_remote_host host =
    let trimmed = trim is_bracket (trim_space host) in
    let lower = to_lower trimmed in
    if is_empty lower || lower == codes "localhost" then codes "127.0.0.1" else trimmed

-- net.JoinHostPort: a host with a colon or a percent sign stands in brackets.
unfoldable pub join_host_port : Bytes → Bytes → Bytes
join_host_port host port =
    if contains_byte host b':' || contains_byte host b'%'
    then b'[' ∷ (host ++ (b']' ∷ b':' ∷ port))
    else host ++ (b':' ∷ port)

unfoldable pub local_forward_spec : Bytes → ℕ → Bytes → Bytes
local_forward_spec listen_ip port remote_host =
    join_host_port listen_ip (itoa port)
    ++ (b':' ∷ join_host_port (normalize_remote_host remote_host) (itoa port))
