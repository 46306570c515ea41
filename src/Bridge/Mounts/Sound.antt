-- ===== src/Bridge/Mounts/Sound.antt =====
-- A session has one recorded mount at most, and no mount is forgotten.
use sshx.Prelude.{ℕ, ◌+◌, ◌<◌, ◌≡◌, Bool, true, false, some, if◌then◌else◌, bytes_eq}
use sshx.Prelude.Map.{has}
use sshx.Prelude.Text.{Bytes}
use sshx.Bridge.Mounts.{
  FsSession, fs_session, validate_fs, handshake_ended, keep_peer, drop_peer, begin_mount,
  mount_failed, mount_made, abandoned_unmounted, begin_unmount, end_unmount,
}

-- The steps of the goroutines that serve a session, in any order. The end of a handshake, a mount or
-- an unmount is a step of the goroutine that began it, so it happens while that is under way.
pub data Step : FsSession → FsSession → Type 0 where
  validates :
      (server_token token id : Bytes) (has_client : Bool) {s : FsSession}
      → Step s (validate_fs server_token token id has_client s).0
  ends_handshake : {s : FsSession} → s.connecting ≡ true → Step s (handshake_ended s)
  keeps :
      (p : ℕ) (draining has_client : Bool) {s : FsSession}
      → Step s (keep_peer p draining has_client s).0
  drops : (p : ℕ) {s : FsSession} → Step s (drop_peer p s)
  begins : (mount_id : Bytes) {s : FsSession} → Step s (begin_mount mount_id s).0
  fails : {s : FsSession} → has s.mounting ≡ true → Step s (mount_failed s)
  makes :
      (mount_id : Bytes) (closing : Bool) {s : FsSession}
      → s.mounting ≡ some mount_id
      → Step s (mount_made mount_id closing s).0
  abandons :
      (succeeded : Bool) {s : FsSession}
      → 0 < s.abandoned
      → Step s (abandoned_unmounted succeeded s)
  begins_unmount : (mount_id : Bytes) {s : FsSession} → Step s (begin_unmount mount_id s).0
  ends_unmount :
      (succeeded : Bool) {s : FsSession} → s.unmounting ≡ true → Step s (end_unmount succeeded s)

pub data Reachable : FsSession → Type 0 where
  starts : Reachable fs_session
  then_step : {s t : FsSession} → Reachable s → Step s t → Reachable t

-- The driver's mounts are the recorded one, those that a goroutine is still to take away, and those
-- whose failed unmount was ignored.
pub record IsSound (s : FsSession) : Type 0 where
  pub one_mount : (has s.mounting ≡ true) → has s.mount ≡ false
  pub unmounts : (s.unmounting ≡ true) → has s.mount ≡ true
  pub accounted : s.live ≡ (if has s.mount then 1 else 0) + s.abandoned + s.left
