-- ===== src/Bridge/Exports.antt =====
-- internal/bridge/remotefs.go: what a command with a remote file system makes the server export and
-- offer. Each map has the session's id and the mount's id for its keys, so the entries of one mount of
-- one session are a record. A step is what a goroutine does between two points where another may run.
-- What the peers have registered is not part of the state.
pub mod Exact
use sshx.Prelude.{
  ℕ, ◌+◌, ◌-◌, Bool, true, false, not, ◌||◌, Option, none, some, if◌then◌else◌, ◌==◌, nat_eq,
}
use sshx.Prelude.Map.{has}

-- What the goroutine that has its channel in `fsExporting` or `fsOffering` is about: it is not there; it
-- has not succeeded yet; it has a backend that is not in `fsBackends`; it has that backend still, after
-- it found that it is not wanted; it has stored its result, or failed, and is to run `finish`.
pub data Phase : Type 0 where
  idle working fresh unwanted finishing : Phase

abbrev pub is_idle : Phase → Bool
is_idle idle = true
is_idle _ = false

abbrev pub is_working : Phase → Bool
is_working working = true
is_working _ = false

abbrev pub is_fresh : Phase → Bool
is_fresh fresh = true
is_fresh _ = false

abbrev pub is_unwanted : Phase → Bool
is_unwanted unwanted = true
is_unwanted _ = false

abbrev pub is_finishing : Phase → Bool
is_finishing finishing = true
is_finishing _ = false

-- `fsPeers` (the identity of the peer), `fsExporting`, `fsBackends` (the identity of the backend),
-- `fsOffering` and `fsClientMounts`. `unclosed` counts the backends that the server has opened and not
-- called `CloseBackend` on, and `removed` those of them that `removeClient` has taken out to do so. The
-- end of a peer closes what it has registered as well, which `unclosed` does not see.
pub record Export : Type 0 where
  pub peer : Option ℕ
  pub exporting : Phase
  pub backend : Option ℕ
  pub offering : Phase
  pub offered : Bool
  pub unclosed : ℕ
  pub removed : ℕ

abbrev pub new_export : Export
new_export = record {
  peer = none;
  exporting = idle;
  backend = none;
  offering = idle;
  offered = false;
  unclosed = 0;
  removed = 0;
}

-- How the loop at the start of `ensureExportBackend` and `ensureClientMount` goes on: nothing is left
-- to do, the goroutine waits for another one and looks again, or it goes on itself.
pub data Turn : Type 0 where
  present wait go_on : Turn

-- One turn of the loop of `ensureExportBackend`.
unfoldable pub begin_export : Export → Export × Turn
begin_export s =
    if has s.backend
    then (s, present)
    else if not (is_idle s.exporting)
    then (s, wait)
    else (record s { exporting = working }, go_on)

-- `OpenRootBackendWithOptions` failed.
unfoldable pub export_failed : Export → Export
export_failed s = record s { exporting = finishing }

unfoldable pub export_opened : Export → Export
export_opened s = record s { exporting = fresh; unclosed = s.unclosed + 1 }

-- `RegisterBackend` failed.
unfoldable pub register_failed : Export → Export
register_failed s = record s { exporting = unwanted }

pub data ExportEnd : Type 0 where
  session_closed existing exported : ExportEnd

-- The second take of the lock in `ensureExportBackend`, for the peer `p` at which the backend `b` is
-- registered.
unfoldable pub store_export : ℕ → ℕ → Export → Export × ExportEnd
store_export p b s = elim s.peer [
  | none ↦ (record s { exporting = unwanted }, session_closed)
  | some q ↦
      if not (q == p)
      then (record s { exporting = unwanted }, session_closed)
      else if has s.backend
      then (record s { exporting = unwanted }, existing)
      else (record s { exporting = finishing; backend = some b }, exported)
]

-- The backend that is not wanted is closed.
unfoldable pub close_unwanted : Export → Export
close_unwanted s = record s { exporting = finishing; unclosed = s.unclosed - 1 }

-- `finish` of `ensureExportBackend`.
unfoldable pub finish_export : Export → Export
finish_export s = record s { exporting = idle }

-- One turn of the loop of `ensureClientMount`.
unfoldable pub begin_offer : Export → Export × Turn
begin_offer s =
    if s.offered
    then (s, present)
    else if not (is_idle s.offering)
    then (s, wait)
    else (record s { offering = working }, go_on)

-- `CreateMountAtWithOptions` failed.
unfoldable pub offer_failed : Export → Export
offer_failed s = record s { offering = finishing }

-- The second take of the lock in `ensureClientMount`, for the peer `p` that the mount was made over;
-- whether it succeeds.
unfoldable pub store_offer : ℕ → Export → Export × Bool
store_offer p s = elim s.peer [
  | none ↦ (record s { offering = finishing }, false)
  | some q ↦
      if not (q == p)
      then (record s { offering = finishing }, false)
      else (record s { offering = finishing; offered = true }, true)
]

-- `finish` of `ensureClientMount`.
unfoldable pub finish_offer : Export → Export
finish_offer s = record s { offering = idle }

-- The end of a handshake that had reserved the session, and the end of its peer, in `handleFSConn`.
unfoldable pub peer_joined : Bool → Bool → ℕ → Export → Export
peer_joined draining has_client p s =
    if has s.peer || draining || not has_client then s else record s { peer = some p }

unfoldable pub peer_left : ℕ → Export → Export
peer_left p s = elim s.peer [ none ↦ s | some q ↦ if q == p then record s { peer = none } else s ]

-- What `removeClient` does under the lock with the entries of the session when it finds the client.
unfoldable pub client_removed : Export → Export
client_removed s = record s {
  peer = none;
  backend = none;
  offered = false;
  removed = s.removed + (if has s.backend then 1 else 0);
}

-- It closes a backend that it has taken out.
unfoldable pub removed_closed : Export → Export
removed_closed s = record s { removed = s.removed - 1; unclosed = s.unclosed - 1 }
