-- ===== src/Domain.antt =====
-- internal/domain/domain.go: host names for targets, and the DNS responder that answers for them.
-- The mutex makes each operation atomic; a method returns the new state of the manager.
pub mod Names
pub mod Register
pub mod Dns
use sshx.Prelude.{
  ℕ, zero, suc, ◌+◌, Bool, true, false, ◌&&◌, ◌||◌, Option, none, some, List, [], ◌∷◌, ◌++◌, length,
  drop, leb, is_empty, if◌then◌else◌, ◌==◌, nat_eq, bytes_eq,
}
use sshx.Prelude.Text.{Bytes, codes, has_prefix, to_lower, trim, trim_space}
use sshx.Prelude.Decimal.{itoa}
use sshx.Prelude.Map.{Map, lookup, insert, delete, has}

pub record Manager : Type 0 where
  pub suffix : Bytes
  pub records : Map Bytes Bytes

abbrev is_dot : ℕ → Bool
is_dot c = c == b'.'

unfoldable pub normalize_suffix : Bytes → Bytes
normalize_suffix s = to_lower (trim is_dot (trim_space s))

unfoldable pub new_manager : Bytes → Manager
new_manager suffix = record { suffix = normalize_suffix suffix; records = [] }

-- `net.IP.To4`: 4 bytes, or 16 bytes that hold an IPv4 address.
unfoldable pub to4 : Bytes → Option Bytes
to4 ip =
    if length ip == 4
    then some ip
    else if length ip == 16
        && has_prefix ip (0 ∷ 0 ∷ 0 ∷ 0 ∷ 0 ∷ 0 ∷ 0 ∷ 0 ∷ 0 ∷ 0 ∷ 255 ∷ 255 ∷ [])
    then some (drop 12 ip)
    else none

pub data Error : Type 0 where
  needs_ipv4 already_registered : Error

pub data Result {ℓ} (A : Type ℓ) : Type ℓ where
  ok : A → Result A
  err : Error → Result A

unfoldable pub register : Manager → Bytes → Bytes → Result Manager
register m name ip = elim (to4 ip) [
  | none ↦ err needs_ipv4
  | some ip4 ↦
      if has (lookup (normalize_suffix name) m.records)
      then err already_registered
      else ok (record m { records = insert (normalize_suffix name) ip4 m.records })
]

-- A letter in lower case, or a digit.
unfoldable pub is_alnum : ℕ → Bool
is_alnum c = (leb b'a' c && leb c b'z') || (leb b'0' c && leb c b'9')

-- The loop of `TargetPrefix`: each run of other characters gives one dash.
unfoldable pub dash_runs : Bool → Bytes → Bytes
dash_runs prev_dash [] = []
dash_runs prev_dash (c ∷ s) =
    let kept = c ∷ dash_runs false s in
    let dashed = dash_runs true s in
    if is_alnum c then kept else if prev_dash then dashed else b'-' ∷ dashed

abbrev is_dash : ℕ → Bool
is_dash c = c == b'-'

unfoldable pub target_prefix : Bytes → Bytes
target_prefix target =
    let prefix = trim is_dash (dash_runs false (to_lower (trim is_dot (trim_space target)))) in
    if is_empty prefix then codes "host" else prefix

-- The name that the loop of `RegisterTarget` tries in round `n`.
unfoldable pub candidate : Bytes → ℕ → Bytes
candidate prefix zero = prefix
candidate prefix (suc n) = prefix ++ (b'-' ∷ itoa (suc n))

unfoldable pub candidate_name : Manager → Bytes → ℕ → Bytes
candidate_name m prefix n = candidate prefix n ++ (b'.' ∷ m.suffix)

-- The loop has no bound; `none` is a search that the fuel has stopped.
unfoldable pub free_suffix : ℕ → Manager → Bytes → ℕ → Option ℕ
free_suffix zero m prefix n = none
free_suffix (suc fuel) m prefix n =
    let next = free_suffix fuel m prefix (suc n) in
    if has (lookup (normalize_suffix (candidate_name m prefix n)) m.records) then next else some n

-- One round more than there are records is enough: see Register.antt.
unfoldable pub register_target : Manager → Bytes → Bytes → Result (Option (Bytes × Manager))
register_target m target ip = elim (to4 ip) [
  | none ↦ err needs_ipv4
  | some ip4 ↦
      let prefix = target_prefix target in
      elim (free_suffix (suc (length m.records)) m prefix 0) [
        | none ↦ ok none
        | some n ↦
            let name = candidate_name m prefix n in
            ok (some (name, record m { records = insert (normalize_suffix name) ip4 m.records }))
      ]
]

unfoldable pub unregister : Manager → Bytes → Manager
unregister m name = record m { records = delete (normalize_suffix name) m.records }

unfoldable pub lookup_name : Manager → Bytes → Option Bytes
lookup_name m name = lookup (normalize_suffix name) m.records
