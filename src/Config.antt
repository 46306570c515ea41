-- ===== src/Config.antt =====
-- internal/config/config.go: the features that are on, the commands that a remote side may run, and
-- the host name of a target. Reading the file and parsing YAML are not modelled.
pub mod Policy
use sshx.Prelude.{
  ℕ, suc, ◌+◌, Bool, true, false, not, ◌&&◌, ◌||◌, Option, none, some, List, [], ◌∷◌, ◌++◌,
  is_empty, drop, if◌then◌else◌, ◌==◌, nat_eq, bytes_eq,
}
use sshx.Prelude.Text.{Bytes, codes, has_prefix, before, contains_byte, trim_right}

pub record Features : Type 0 where
  pub command_bridge : Bool
  pub auto_forward : Bool
  pub remote_fs : Bool
  pub proxy : Bool

-- One round of the loop of `applyFeatureEnvOverrides`.
unfoldable pub override : Option Bytes → Bool → Bool
override none old = old
override (some v) old = if v == codes "1" then true else if v == codes "0" then false else old

-- `lookup_env` is `os.LookupEnv`.
unfoldable pub apply_feature_env_overrides : (Bytes → Option Bytes) → Features → Features
unfolding override
apply_feature_env_overrides lookup_env f = record {
  command_bridge = override (lookup_env (codes "COMMANDBRIDGE")) f.command_bridge;
  auto_forward = override (lookup_env (codes "AUTOFORWARD")) f.auto_forward;
  remote_fs = override (lookup_env (codes "REMOTEFS")) f.remote_fs;
  proxy = override (lookup_env (codes "SSHX_USE_PROXY")) f.proxy;
}

unfoldable pub enabled : Features → Bool
enabled f = f.command_bridge || f.auto_forward || f.remote_fs || f.proxy

-- What stands behind the last occurrence of a byte, or everything.
unfoldable pub after_last : ℕ → Bytes → Bytes
after_last b [] = []
after_last b (c ∷ s) =
    let rest = after_last b s in
    if contains_byte (c ∷ s) b then (if contains_byte s b then rest else s) else c ∷ s

-- `filepath.Base`, with the separator `/`.
unfoldable pub base : Bytes → Bytes
unfolding after_last
base path =
    if is_empty path
    then codes "."
    else let trimmed = trim_right (λ c. c == b'/') path in
      if is_empty trimmed then codes "/" else after_last b'/' trimmed

unfoldable pub is_denied : List Bytes → Bytes → Bytes → Bool
is_denied [] cmd arg = false
is_denied (denied ∷ deny) cmd arg = denied == cmd || denied == arg || is_denied deny cmd arg

unfoldable pub allows : List Bytes → List Bytes → Bool
allows deny [] = false
allows deny (arg ∷ argv) = not (is_denied deny (base arg) arg)

-- What stands in front of the last occurrence of a byte, or nothing.
unfoldable pub before_last : ℕ → Bytes → Bytes
before_last b [] = []
before_last b (c ∷ s) = let rest = before_last b s in if contains_byte s b then c ∷ rest else []

-- The part of `NormalizeTargetHost` behind the user name.
unfoldable pub without_port : Bytes → Bytes
unfolding before_last
without_port target =
    if has_prefix target (codes "[") && contains_byte target b']'
    then before b']' (drop 1 target)
    else let host = before_last b':' target in
      if not (is_empty host) && not (contains_byte host b':') then host else target

unfoldable pub normalize_target_host : Bytes → Bytes
unfolding without_port after_last
normalize_target_host target = without_port (after_last b'@' target)
