-- ===== src/Forward/Control/Operation.antt =====
-- `ControlOperationArgs`: the command line of a control operation goes to the session's destination.
use sshx.Prelude.{ℕ, List, bytes_eq}
use sshx.Prelude.Text.{Bytes}
use sshx.Sshcompat.Grammar.{Finds}
use sshx.Forward.Control.Reaches.{Reaches}

-- A command line that reaches `t` has `t` for its destination in Grammar.
abbrev Found : Bytes → List Bytes → Type 0
Found t args = (i : ℕ) × (cmd : List Bytes) × Finds args i t cmd
