-- ===== src/Bridge/Mounts.antt =====
-- internal/bridge/remotefs.go: what the bridge server keeps for the remote file system of one session.
-- Each of its maps has the session's id for its key, so the entries of one session are a record. A
-- step is what a goroutine does under the lock; the calls of the mount driver lie between the steps.
pub mod Sound
pub mod Names
use sshx.Prelude.{
  ℕ, zero, suc, ◌+◌, ◌-◌, ◌≡◌, Bool, true, false, not, ◌&&◌, ◌||◌, Option, none, some, List, [],
  ◌∷◌, is_empty, if◌then◌else◌, ◌==◌, bytes_eq, nat_eq,
}
use sshx.Prelude.Map.{has}
use sshx.Prelude.Text.{Bytes, codes, contains_byte}

-- `filepath.Base`: without the slashes at the end, what stands behind the last slash.
unfoldable pub strip_slashes : Bytes → Bytes
strip_slashes [] = []
strip_slashes (c ∷ s) = elim (strip_slashes s) [
  | [] ↦ if c == b'/' then [] else c ∷ []
  | d ∷ t ↦ c ∷ d ∷ t
]

unfoldable pub after_last_slash : Bytes → Bytes
unfolding contains_byte
after_last_slash [] = []
after_last_slash (c ∷ s) =
    let rest = after_last_slash s in
    if contains_byte s b'/' then rest else if c == b'/' then s else c ∷ s

unfoldable pub path_base : Bytes → Bytes
unfolding strip_slashes after_last_slash
path_base [] = codes "."
path_base (c ∷ s) =
    let base = after_last_slash (strip_slashes (c ∷ s)) in if is_empty base then codes "/" else base

unfoldable pub safe_session_id : Bytes → Bool
unfolding path_base contains_byte
safe_session_id id =
    not (is_empty id)
    && not (id == codes ".")
    && not (id == codes "..")
    && path_base id == id
    && not (contains_byte id b'/' || contains_byte id b'\\')

-- `fsConnecting`, `fsPeers` (the identity of the peer), `fsMounting` and `fsMounts` with the mount ids
-- that the goroutine and the mount carry, `fsUnmounting`. `live` counts the mounts that the driver
-- has made and not yet taken away; `abandoned` are those of them that a goroutine is still to take away
-- without having recorded them, and `left` those whose failed unmount was ignored.
pub record FsSession : Type 0 where
  pub connecting : Bool
  pub peer : Option ℕ
  pub mounting : Option Bytes
  pub mount : Option Bytes
  pub unmounting : Bool
  pub live : ℕ
  pub abandoned : ℕ
  pub left : ℕ

abbrev pub fs_session : FsSession
fs_session = record {
  connecting = false;
  peer = none;
  mounting = none;
  mount = none;
  unmounting = false;
  live = 0;
  abandoned = 0;
  left = 0;
}

pub data FsError : Type 0 where
  invalid_token invalid_session_id no_client already_exists : FsError

-- The validation of a data connection in `handleFSConn`. `has_client` is whether the session has a
-- client with the capability. The session is reserved.
unfoldable pub validate_fs : Bytes → Bytes → Bytes → Bool → FsSession → FsSession × Option FsError
unfolding safe_session_id
validate_fs server_token token id has_client s =
    if not (is_empty server_token) && not (token == server_token)
    then (s, some invalid_token)
    else if not (safe_session_id id)
    then (s, some invalid_session_id)
    else if not has_client
    then (s, some no_client)
    else if has s.peer || s.connecting
    then (s, some already_exists)
    else (record s { connecting = true }, none)

-- The end of a handshake that had reserved the session.
unfoldable pub handshake_ended : FsSession → FsSession
handshake_ended s = record s { connecting = false }

-- A handshake that succeeded, in a later take of the lock: the peer is kept, or closed.
unfoldable pub keep_peer : ℕ → Bool → Bool → FsSession → FsSession × Bool
keep_peer p draining has_client s =
    if has s.peer || draining || not has_client
    then (s, false)
    else (record s { peer = some p }, true)

-- After `peer.Done()`.
unfoldable pub drop_peer : ℕ → FsSession → FsSession
drop_peer p s = elim s.peer [ none ↦ s | some q ↦ if q == p then record s { peer = none } else s ]

-- The start of `mountRemoteFS`: whether the goroutine may mount.
unfoldable pub begin_mount : Bytes → FsSession → FsSession × Bool
begin_mount mount_id s =
    if is_empty mount_id
    then (s, false)
    else if has s.mounting || has s.mount
    then (s, false)
    else (record s { mounting = some mount_id }, true)

-- The mount driver failed.
unfoldable pub mount_failed : FsSession → FsSession
mount_failed s = record s { mounting = none }

-- The mount driver succeeded; whether the mount is recorded. `closing` is whether the server drains, the
-- peer is done or the request is canceled; then the mount is to be taken away again.
unfoldable pub mount_made : Bytes → Bool → FsSession → FsSession × Bool
mount_made mount_id closing s =
    if closing
    then (record s { mounting = none; live = s.live + 1; abandoned = s.abandoned + 1 }, false)
    else (record s { mounting = none; mount = some mount_id; live = s.live + 1 }, true)

-- An abandoned mount is taken away, outside the lock; an error of that is ignored.
unfoldable pub abandoned_unmounted : Bool → FsSession → FsSession
abandoned_unmounted succeeded s = record s {
  abandoned = s.abandoned - 1;
  live = if succeeded then s.live - 1 else s.live;
  left = if succeeded then s.left else s.left + 1;
}

-- How `unmountRemoteFS` goes on.
pub data Unmount : Type 0 where
  busy nothing_to_do wait unmount : Unmount

-- One turn of the loop of `unmountRemoteFS`, up to the call of the driver.
unfoldable pub begin_unmount : Bytes → FsSession → FsSession × Unmount
begin_unmount mount_id s = if has s.mounting then (s, busy) else elim s.mount [
  | none ↦ (s, nothing_to_do)
  | some m ↦
      if not (m == mount_id)
      then (s, nothing_to_do)
      else if s.unmounting
      then (s, wait)
      else (record s { unmounting = true }, unmount)
]

-- The driver is done, with or without an error.
unfoldable pub end_unmount : Bool → FsSession → FsSession
end_unmount succeeded s =
    if succeeded
    then record s { mount = none; unmounting = false; live = s.live - 1 }
    else record s { unmounting = false }
