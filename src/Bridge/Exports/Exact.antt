-- ===== src/Bridge/Exports/Exact.antt =====
-- A mount is exported once, and no backend that was opened is forgotten.
use sshx.Prelude.{ℕ, ◌+◌, ◌<◌, ◌≡◌, refl, Bool, true, false, ◌||◌, if◌then◌else◌, nat_eq, arith}
use sshx.Prelude.Map.{has}
use sshx.Bridge.Exports.{
  Phase, Export, new_export, is_working, is_fresh, is_unwanted, is_finishing, begin_export,
  export_failed, export_opened, register_failed, store_export, close_unwanted, finish_export,
  begin_offer, offer_failed, store_offer, finish_offer, peer_joined, peer_left, client_removed,
  removed_closed,
}

-- The steps of the goroutines that serve commands, data connections and clients, in any order. What a
-- goroutine does after it has begun an export or an offer is a step for the phase that it is in.
pub data Step : Export → Export → Type 0 where
  begins : {s : Export} → Step s (begin_export s).0
  fails : {s : Export} → is_working s.exporting ≡ true → Step s (export_failed s)
  opens : {s : Export} → is_working s.exporting ≡ true → Step s (export_opened s)
  not_registered : {s : Export} → is_fresh s.exporting ≡ true → Step s (register_failed s)
  stores : (p b : ℕ) {s : Export} → is_fresh s.exporting ≡ true → Step s (store_export p b s).0
  closes : {s : Export} → is_unwanted s.exporting ≡ true → Step s (close_unwanted s)
  finishes : {s : Export} → is_finishing s.exporting ≡ true → Step s (finish_export s)
  begins_offer : {s : Export} → Step s (begin_offer s).0
  fails_offer : {s : Export} → is_working s.offering ≡ true → Step s (offer_failed s)
  stores_offer : (p : ℕ) {s : Export} → is_working s.offering ≡ true → Step s (store_offer p s).0
  finishes_offer : {s : Export} → is_finishing s.offering ≡ true → Step s (finish_offer s)
  joins :
      (draining has_client : Bool) (p : ℕ) {s : Export}
      → Step s (peer_joined draining has_client p s)
  leaves : (p : ℕ) {s : Export} → Step s (peer_left p s)
  removes : {s : Export} → Step s (client_removed s)
  closes_removed : {s : Export} → 0 < s.removed → Step s (removed_closed s)

pub data Reachable : Export → Type 0 where
  starts : Reachable new_export
  then_step : {s t : Export} → Reachable s → Step s t → Reachable t

-- Whether the goroutine that exports has a backend of its own.
abbrev pub holds : Phase → Bool
holds phase = is_fresh phase || is_unwanted phase

pub record IsExact (s : Export) : Type 0 where
  pub one_export : (is_working s.exporting || holds s.exporting ≡ true) → has s.backend ≡ false
  pub one_offer : (is_working s.offering ≡ true) → s.offered ≡ false
  pub accounted :
      s.unclosed
      ≡ (if has s.backend then 1 else 0) + (if holds s.exporting then 1 else 0) + s.removed

step-IsExact : (s t : Export) → IsExact s → Step s t → IsExact t
unfolding begin_export export_failed export_opened register_failed store_export close_unwanted
    finish_export begin_offer offer_failed store_offer finish_offer peer_joined peer_left
    client_removed removed_closed
step-IsExact s _ h begins = ground arith
step-IsExact s _ h (fails e) = ground arith
step-IsExact s _ h (opens e) = ground arith
step-IsExact s _ h (not_registered e) = ground arith
step-IsExact s _ h (stores p b e) = ground arith
step-IsExact s _ h (closes e) = ground arith
step-IsExact s _ h (finishes e) = ground arith
step-IsExact s _ h begins_offer = ground arith
step-IsExact s _ h (fails_offer e) = ground arith
step-IsExact s _ h (stores_offer p e) = ground arith
step-IsExact s _ h (finishes_offer e) = ground arith
step-IsExact s _ h (joins draining has_client p) = ground arith
step-IsExact s _ h (leaves p) = ground arith
step-IsExact s _ h removes = ground arith
step-IsExact s _ h (closes_removed e) = ground arith

start-IsExact : IsExact new_export
start-IsExact = record { one_export = λ e. refl; one_offer = λ e. refl; accounted = omega arith }

-- In every reachable state a mount that a goroutine is about to export, or has found that it should not
-- export, is not exported; one that a goroutine is about to offer is not offered; and the backends that
-- the server has opened and not itself closed are the exported one, the one of the goroutine that
-- exports, and those that `removeClient` is about to close: however an export ends, none is forgotten.
pub Reachable-IsExact : (s : Export) → Reachable s → IsExact s
Reachable-IsExact _ starts = start-IsExact
Reachable-IsExact _ (then_step {s = s} {t = t} r step) =
    step-IsExact s t (Reachable-IsExact s r) step
