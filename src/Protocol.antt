-- ===== src/Protocol.antt =====
-- internal/protocol/protocol.go: the version range that the peers agree on. The encoder and the
-- decoder only call encoding/json; a frame is passed as a value here.
pub mod Frames
use sshx.Prelude.{
  ℕ, ◌≤◌, ◌≡◌, ◌↔◌, ◌≢◌, ◌⊎◌, Bool, true, false, ◌&&◌, leb, if◌then◌else◌, ◌==◌, nat_eq, arith,
}

abbrev pub version : ℕ
version = 1

abbrev pub min_version : ℕ
min_version = 1

abbrev pub max_version : ℕ
max_version = 1

-- The version fields of a frame; a negative number, which no peer sends, is not modelled.
pub record Versions : Type 0 where
  pub protocol_version : ℕ
  pub protocol_min : ℕ
  pub protocol_max : ℕ

unfoldable pub frame_compatible : Versions → Bool
frame_compatible frame =
    if frame.protocol_min == 0 && frame.protocol_max == 0 && frame.protocol_version == 0
    then false
    else (let min1 =
          if frame.protocol_min == 0 then frame.protocol_version else frame.protocol_min in
        let max1 = if frame.protocol_max == 0 then frame.protocol_version else frame.protocol_max in
        let min2 = if min1 == 0 then version else min1 in
        let max2 = if max1 == 0 then version else max1 in
        leb min2 max_version && leb min_version max2)

-- The range that a frame announces, each bound defaulting to the exact version, and 0 for none.
abbrev bound : ℕ → ℕ → ℕ
bound field exact = if field == 0 then exact else field

-- A frame is compatible exactly when it announces a version at all, and its lower bound is at most 1:
-- with the only supported version 1, no upper bound that is announced lies below it.
pub frame_compatible_iff :
    (f : Versions)
    → (frame_compatible f ≡ true) ↔ (
        ((f.protocol_version ≢ 0) ⊎ (f.protocol_min ≢ 0) ⊎ (f.protocol_max ≢ 0))
        × (bound f.protocol_min f.protocol_version ≤ 1))
unfolding frame_compatible
frame_compatible_iff f = (λ h. ground arith, λ h. ground arith)
