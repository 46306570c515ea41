-- ===== src/RemoteFs/Frame.antt =====
-- internal/remotefs/protocol.go: the frames that two peers exchange, and how they are written to a
-- connection and read from it. JSON and the connection are parameters.
pub mod RoundTrip
pub mod Written
use sshx.Prelude.{
  ℕ, zero, suc, ◌+◌, ◌*◌, ◌/◌, ◌%◌, ◌^◌, Bool, true, false, not, ◌||◌, Option, none, some, List, [],
  ◌∷◌, ◌++◌, is_empty, if◌then◌else◌, ◌==◌, nat_eq, leb, length, take, drop,
}
use sshx.Prelude.Text.{Bytes, codes}
use sshx.RemoteFs.{ErrorCode, error_none}
use sshx.RemoteFs.Os.{Attr, SetAttr, DirEntry, StatFs}

-- The strings of `Type` that the source names, and any other.
pub data FrameType : Type 0 where
  frame_hello frame_hello_ok frame_request frame_response frame_cancel : FrameType
  other_frame : Bytes → FrameType

-- The strings of `Op` that `handleRequest` names, and any other.
pub data Op : Type 0 where
  op_mount_create op_mount_release op_lookup op_readdir op_open op_close op_read op_write op_fsync
        op_mkdir op_unlink op_rmdir op_rename op_link op_symlink op_readlink op_setattr op_statfs :
      Op
  other_op : Bytes → Op

pub record WireFrame : Type 0 where
  pub type : FrameType
  pub version : ℕ
  pub id : ℕ
  pub session_id : Bytes
  pub token : Bytes
  pub mount_id : Bytes
  pub op : Op
  pub path : Bytes
  pub path2 : Bytes
  pub target : Bytes
  pub handle : ℕ
  pub offset : ℕ
  pub size : ℕ
  pub open_flags : ℕ
  pub mode : ℕ
  pub attr : Attr
  pub change : SetAttr
  pub entries : List DirEntry
  pub stat_fs : StatFs
  pub mount_path : Bytes
  pub read_only : Bool
  pub error_code : ErrorCode
  pub error : Bytes
  pub bytes : Bytes

abbrev pub no_attr : Attr
no_attr = record {
  ino = 0;
  size = 0;
  blocks = 0;
  mode = 0;
  nlink = 0;
  atime_nano = 0;
  mtime_nano = 0;
  ctime_nano = 0;
}

abbrev pub no_change : SetAttr
no_change = record { mode = none; size = none; atime_nano = none; mtime_nano = none }

abbrev pub no_stat_fs : StatFs
no_stat_fs = record {
  blocks = 0;
  bfree = 0;
  bavail = 0;
  files = 0;
  ffree = 0;
  bsize = 0;
  name_len = 0;
  frsize = 0;
}

-- `wireFrame{}`
abbrev pub zero_frame : WireFrame
zero_frame = record {
  type = other_frame [];
  version = 0;
  id = 0;
  session_id = [];
  token = [];
  mount_id = [];
  op = other_op [];
  path = [];
  path2 = [];
  target = [];
  handle = 0;
  offset = 0;
  size = 0;
  open_flags = 0;
  mode = 0;
  attr = no_attr;
  change = no_change;
  entries = [];
  stat_fs = no_stat_fs;
  mount_path = [];
  read_only = false;
  error_code = error_none;
  error = [];
  bytes = [];
}

pub data WireError : Type 0 where
  json_error frame_too_large short_write write_failed end_of_stream unexpected_end
        invalid_metadata_size invalid_data_size :
      WireError

pub data WireResult {ℓ} (A : Type ℓ) : Type ℓ where
  ok : A → WireResult A
  err : WireError → WireResult A

abbrev pub max_metadata_size : ℕ
max_metadata_size = 65536

abbrev pub max_data_size : ℕ
max_data_size = 262144

-- `binary.BigEndian.PutUint32` and `Uint32`.
unfoldable pub put_uint32 : ℕ → Bytes
put_uint32 n = n / 2 ^ 24 % 256 ∷ n / 2 ^ 16 % 256 ∷ n / 2 ^ 8 % 256 ∷ n % 256 ∷ []

unfoldable pub uint32 : Bytes → ℕ
uint32 [] = 0
uint32 (a ∷ []) = 0
uint32 (a ∷ b ∷ []) = 0
uint32 (a ∷ b ∷ c ∷ []) = 0
uint32 (a ∷ b ∷ c ∷ d ∷ s) = a * 2 ^ 24 + b * 2 ^ 16 + c * 2 ^ 8 + d

-- `json.Marshal` of a frame, without its data, and `json.Unmarshal`.
pub record Json : Type 0 where
  pub marshal : WireFrame → Option Bytes
  pub unmarshal : Bytes → Option WireFrame

-- `io.Writer`: how many bytes a `Write` took, and whether it failed.
abbrev pub Writer : Type 0 → Type 0
Writer W = Bytes → W → W × (ℕ × Bool)

-- A call after another one that must succeed.
unfoldable pub and_then :
    {W : Type 0}
    → W × WireResult (Unit {0})
    → (W → W × WireResult (Unit {0}))
    → W × WireResult (Unit {0})
and_then (w, ok _) next = next w
and_then (w, err e) next = (w, err e)

module _ {W : Type 0} (writer : Writer W) where
  -- Each turn takes a byte at least, so as many turns as there are bytes are enough.
  unfoldable pub write_loop : ℕ → Bytes → W → W × WireResult (Unit {0})
  write_loop fuel [] w = (w, ok tt)
  write_loop zero (c ∷ s) w = (w, err short_write)
  write_loop (suc fuel) (c ∷ s) w =
      let (w', (n, failed)) = writer (c ∷ s) w in
      if failed
      then (w', err write_failed)
      else if n == 0
      then (w', err short_write)
      else write_loop fuel (drop n (c ∷ s)) w'

  unfoldable pub write_all : Bytes → W → W × WireResult (Unit {0})
  unfolding write_loop
  write_all s w = write_loop (length s) s w

  unfoldable pub write_wire_frame : Json → WireFrame → W → W × WireResult (Unit {0})
  unfolding write_all and_then put_uint32
  write_wire_frame json frame w = elim (json.marshal frame) [
    | none ↦ (w, err json_error)
    | some metadata ↦
        if not (leb (length metadata) max_metadata_size)
        then (w, err frame_too_large)
        else if not (leb (length frame.bytes) max_data_size)
        then (w, err frame_too_large)
        else and_then
            (write_all (put_uint32 (length metadata) ++ put_uint32 (length frame.bytes)) w)
            (λ w. and_then (write_all metadata w) (write_all frame.bytes))
  ]

-- `io.ReadFull` of `n` bytes, from the bytes that the connection still delivers before it ends.
unfoldable pub read_full : ℕ → Bytes → WireResult (Bytes × Bytes)
read_full n stream =
    if leb n (length stream)
    then ok (take n stream, drop n stream)
    else if is_empty stream
    then err end_of_stream
    else err unexpected_end

infixl 5 ◌>>=◌
abbrev pub ◌>>=◌ : {A B : Type 0} → WireResult A → (A → WireResult B) → WireResult B
ok a >>= f = f a
err e >>= f = err e

-- The data behind the metadata of `frame`, if there are any.
unfoldable pub read_data : WireFrame → ℕ → Bytes → WireResult (WireFrame × Bytes)
unfolding read_full
read_data frame data_size stream =
    if data_size == 0
    then ok (frame, stream)
    else do (bytes, rest) ← read_full data_size stream; ok (record frame { bytes = bytes }, rest)

-- What follows the two lengths.
unfoldable pub read_sized : Json → ℕ → ℕ → Bytes → WireResult (WireFrame × Bytes)
unfolding read_full read_data
read_sized json metadata_size data_size stream =
    if metadata_size == 0 || not (leb metadata_size max_metadata_size)
    then err invalid_metadata_size
    else if not (leb data_size max_data_size)
    then err invalid_data_size
    else do
      (metadata, rest) ← read_full metadata_size stream
      frame ← elim (json.unmarshal metadata) [ none ↦ err json_error | some f ↦ ok f ]
      read_data frame data_size rest

-- A frame, and what the connection delivers after it.
unfoldable pub read_wire_frame : Json → Bytes → WireResult (WireFrame × Bytes)
unfolding read_full uint32 read_sized
read_wire_frame json stream = do
  (lengths, rest) ← read_full 8 stream
  read_sized json (uint32 (take 4 lengths)) (uint32 (drop 4 lengths)) rest
