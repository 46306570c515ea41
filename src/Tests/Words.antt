-- ===== src/Tests/Words.antt =====
-- Command lines and identities.
use sshx.Prelude.{
  ◌≡◌, ◌↔◌, ◌<◌, refl, Bool, true, false, Option, none, some, List, [], ◌∷◌, ◌++◌, length, ◌==◌,
  nat_eq, bytes_eq, contains, All, if◌then◌else◌, arith,
}
use sshx.Prelude.Text.{Bytes, codes}
use sshx.Prelude.Map.{lookup, values}
use sshx.Sshcompat.{parse, takes_value, is_target, dashes, insert_before_target}
use sshx.Sshcompat.Grammar.{IsOption, Finds, Options, needs_value, is_word}
use sshx.Sshcompat.Parse.{kept, parse_iff_Finds}
use sshx.Sshcompat.Insert.{has_dash_value, insert_before_target-Finds, insert_before_target_splits}
use sshx.Forward.Control.Reaches.{Reaches}
use sshx.Identity
use sshx.Identity.Probe.{NotQuery, Actions}
use sshx.Identity.Resolve.{IsValid, resolve_target-IsValid}

abbrev command_line : List Bytes
command_line = codes "-p" ∷ codes "22" ∷ codes "host" ∷ codes "ls" ∷ []

abbrev no_tty : List Bytes
no_tty = codes "-T" ∷ []

abbrev remote : List Bytes
remote = codes "ls" ∷ []

parse_iff_Finds_example :
    (((parse command_line).target ≡ codes "host")
        × ((parse command_line).target_index ≡ some 2)
        × ((parse command_line).remote_command ≡ remote)
      ↔ Finds (kept command_line) 2 (codes "host") remote)
    × ((a : Bytes) → (takes_value a ≡ needs_value a) × (is_target a ≡ is_word a))
parse_iff_Finds_example = parse_iff_Finds command_line 2 (codes "host") remote

port-IsOption : IsOption (codes "-p")
unfolding sshx.Prelude.bytes_beq is_target sshx.Prelude.Text.has_prefix
port-IsOption = record { not_dashes = refl; not_target = refl }

tty-IsOption : IsOption (codes "-T")
unfolding sshx.Prelude.bytes_beq is_target sshx.Prelude.Text.has_prefix
tty-IsOption = record { not_dashes = refl; not_target = refl }

value_taken : takes_value (codes "-p") ≡ true
unfolding takes_value contains sshx.Prelude.bytes_beq
value_taken = refl

no_value_taken : takes_value (codes "-T") ≡ false
unfolding takes_value contains sshx.Prelude.bytes_beq
no_value_taken = refl

host_word : is_target (codes "host") ≡ true
unfolding is_target sshx.Prelude.Text.has_prefix
host_word = refl

host_not_dashes : (codes "host" == dashes) ≡ false
unfolding sshx.Prelude.bytes_beq
host_not_dashes = refl

kept_whole : (parse command_line).args ≡ command_line
unfolding parse sshx.Prelude.bytes_beq is_target sshx.Prelude.Text.has_prefix takes_value contains
kept_whole = refl

no_dash_value : has_dash_value (parse command_line).args ≡ false
unfolding has_dash_value parse sshx.Prelude.bytes_beq is_target sshx.Prelude.Text.has_prefix
    takes_value contains
no_dash_value = refl

command_line-Finds : Finds command_line 2 (codes "host") remote
command_line-Finds = Finds.pair port-IsOption value_taken (Finds.bare host_not_dashes host_word)

parsed-Finds : Finds (parse command_line).args 2 (codes "host") remote
parsed-Finds = rw kept_whole command_line-Finds

no_tty-Options : Options no_tty
no_tty-Options = Options.flag tty-IsOption no_value_taken Options.done

insert_before_target-Finds_example :
    Finds (insert_before_target (parse command_line) no_tty) 3 (codes "host") remote
insert_before_target-Finds_example =
    insert_before_target-Finds command_line no_tty 2 (codes "host") remote parsed-Finds
      no_dash_value no_tty-Options

abbrev dash_value : List Bytes
dash_value = codes "-p" ∷ dashes ∷ codes "host" ∷ remote

dash_value_kept : (parse dash_value).args ≡ dash_value
unfolding parse sshx.Prelude.bytes_beq is_target sshx.Prelude.Text.has_prefix takes_value contains
dash_value_kept = refl

insert_before_target_splits_example :
    insert_before_target (parse dash_value) no_tty
    ≡ codes "-p" ∷ (no_tty ++ dashes ∷ codes "host" ∷ remote)
insert_before_target_splits_example =
    insert_before_target_splits dash_value no_tty [] remote (codes "-p") (codes "host") Options.done
      port-IsOption value_taken host_word host_not_dashes dash_value_kept

abbrev dynamic : List Bytes
dynamic = codes "-D" ∷ codes "1080" ∷ []

dynamic-IsOption : IsOption (codes "-D")
unfolding sshx.Prelude.bytes_beq is_target sshx.Prelude.Text.has_prefix
dynamic-IsOption = record { not_dashes = refl; not_target = refl }

is_action : Identity.is_action_option (codes "-D") ≡ true
unfolding Identity.is_action_option contains sshx.Prelude.bytes_beq
is_action = refl

dynamic-Actions : Actions dynamic
dynamic-Actions = Actions.pair dynamic-IsOption is_action Actions.nil

no_queries : All NotQuery command_line
unfolding sshx.Prelude.bytes_beq
no_queries = (refl, (refl, (refl, (refl, tt))))

abbrev probe : List Bytes → Option Bytes
probe args = some (codes "user me\nhostname Box\nport 22\n")

abbrev box : Identity.Target
box = record { user = codes "me"; hostname = codes "box"; port = 22; host_key_alias = [] }

resolved : Identity.resolve_target probe command_line ≡ Identity.target box
unfolding Identity.resolve_target Identity.config_probe_args sshx.Prelude.bytes_beq
    Identity.is_destination sshx.Prelude.Text.has_prefix Identity.is_action_option contains
    Identity.is_value_option Identity.target_of sshx.Prelude.Decimal.atoi Identity.value_of lookup
    Identity.add_lines sshx.Prelude.Text.split Identity.add_line sshx.Prelude.Text.contains_byte
    sshx.Prelude.Text.trim Identity.is_control_option sshx.Prelude.Map.delete
    sshx.Prelude.Map.insert sshx.Prelude.Text.after sshx.Prelude.Text.before
    sshx.Prelude.Text.is_space sshx.Prelude.Text.to_lower sshx.Prelude.Text.to_lower_byte
    sshx.Prelude.Text.trim_left sshx.Prelude.Text.trim_right
resolved = refl

resolve_target-IsValid_example : IsValid box
resolve_target-IsValid_example = resolve_target-IsValid probe command_line box resolved
