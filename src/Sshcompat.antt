-- ===== src/Sshcompat.antt =====
-- internal/sshcompat/parse.go: how sshx reads an `ssh` command line.
-- `TargetIndex` is -1 in the source where it is `none` here.
pub mod Grammar
pub mod Scan
pub mod Parse
pub mod Insert
use sshx.Prelude.{
  ℕ, suc, ◌+◌, ◌-◌, Bool, true, false, not, ◌&&◌, ◌||◌, Option, none, some, List, [], ◌∷◌, ◌++◌,
  length, take, drop, get_elem?, ltb, if◌then◌else◌, ◌==◌, bytes_eq, contains,
}
use sshx.Prelude.Text.{Bytes, codes, has_prefix}

-- `optionsWithRequiredValue`
abbrev pub options_with_required_value : List Bytes
options_with_required_value =
    codes "-B"
    ∷ codes "-b"
    ∷ codes "-c"
    ∷ codes "-D"
    ∷ codes "-E"
    ∷ codes "-e"
    ∷ codes "-F"
    ∷ codes "-I"
    ∷ codes "-i"
    ∷ codes "-J"
    ∷ codes "-L"
    ∷ codes "-l"
    ∷ codes "-m"
    ∷ codes "-O"
    ∷ codes "-o"
    ∷ codes "-p"
    ∷ codes "-Q"
    ∷ codes "-R"
    ∷ codes "-S"
    ∷ codes "-W"
    ∷ codes "-w"
    ∷ []

unfoldable pub takes_value : Bytes → Bool
takes_value = contains options_with_required_value

pub record Parsed : Type 0 where
  pub args : List Bytes
  pub target : Bytes
  pub target_index : Option ℕ
  pub remote_command : List Bytes
  pub no_wrap : Bool
  pub info_mode : Bool

unfoldable pub is_info_mode : Bytes → Bool
is_info_mode arg = arg == codes "-V" || arg == codes "-G" || has_prefix arg (codes "-Q")

-- The first loop of `Parse`.
unfoldable pub drop_no_wrap : Parsed → List Bytes → Parsed
drop_no_wrap out [] = out
drop_no_wrap out (arg ∷ rest) =
    drop_no_wrap
      (if arg == codes "--no-wrap"
        then record out { no_wrap = true }
        else record out { args = out.args ++ arg ∷ [] })
      rest

abbrev pub dashes : Bytes
dashes = codes "--"

-- `!strings.HasPrefix(arg, "-") || arg == "-"`
unfoldable pub is_target : Bytes → Bool
is_target arg = not (has_prefix arg (codes "-")) || arg == codes "-"

abbrev pub found : ℕ → Bytes → List Bytes → Parsed → Parsed
found i arg rest out = record out { target = arg; target_index = some i; remote_command = rest }

abbrev pub note_info : Bytes → Parsed → Parsed
note_info arg out = record out { info_mode = is_info_mode arg || out.info_mode }

-- The second loop, at index `i`, on the arguments that are left. The last test of its body,
-- `consumesAttachedValue`, continues the loop as its failure does.
unfoldable pub scan : ℕ → Parsed → List Bytes → Parsed
scan i out [] = out
scan i out (arg ∷ []) =
    if arg == dashes
    then out
    else if is_target arg
    then found i arg [] (note_info arg out)
    else note_info arg out
scan i out (arg ∷ value ∷ rest) =
    let skip_value = scan (suc (suc i)) (note_info arg out) rest in
    let next = scan (suc i) (note_info arg out) (value ∷ rest) in
    if arg == dashes
    then found (suc i) value rest out
    else if is_target arg
    then found i arg (value ∷ rest) (note_info arg out)
    else if takes_value arg
    then skip_value
    else next

abbrev pub unparsed : Parsed
unparsed = record {
  args = [];
  target = [];
  target_index = none;
  remote_command = [];
  no_wrap = false;
  info_mode = false;
}

unfoldable pub parse : List Bytes → Parsed
unfolding drop_no_wrap scan
parse args = let out = drop_no_wrap unparsed args in scan 0 out out.args

-- The place at which `InsertBeforeTarget` puts the options, for a target at index `i`.
unfoldable pub insert_at : List Bytes → ℕ → ℕ
insert_at args i = elim (get_elem? args (i - 1)) [
  | none ↦ i
  | some arg ↦ if ltb 0 i && arg == dashes then i - 1 else i
]

unfoldable pub insert_before_target : Parsed → List Bytes → List Bytes
unfolding insert_at
insert_before_target parsed options = elim parsed.target_index [
  | none ↦ parsed.args
  | some i ↦
      if ltb (length parsed.args) i
      then parsed.args
      else (let at = insert_at parsed.args i in
          take at parsed.args ++ (options ++ drop at parsed.args))
]
