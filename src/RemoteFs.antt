-- ===== src/RemoteFs.antt =====
-- internal/remotefs: what crosses the wire of the remote file system. The error codes stand for the
-- numbers of errors, which differ between operating systems.
pub mod Codes
pub mod Effect
pub mod Os
pub mod Paths
pub mod Backend
pub mod Frame
pub mod Peer
pub mod Layout
use sshx.Prelude.{
  ℕ, ◌+◌, ◌/◌, ◌%◌, Bool, true, false, not, ◌&&◌, ◌||◌, Option, none, some, if◌then◌else◌, ◌==◌,
  nat_eq,
}

-- The numbers of errors that the source names, and any other.
pub data Errno : Type 0 where
  zero_errno eperm eacces enoent eexist ebadf eisdir enotdir exdev ebusy e2big enotsup enosys einval
        eintr etimedout eio :
      Errno
  other : ℕ → Errno

-- The codes of the protocol. Any other string on the wire is read as `error_io`: `errorFromCode` takes
-- both to EIO, and a code is only compared with that of success otherwise.
pub data ErrorCode : Type 0 where
  error_none error_permission error_not_permitted error_not_found error_exists error_bad_handle
        error_is_dir error_not_dir error_cross_dev error_busy error_too_large error_unsupported
        error_not_implemented error_invalid error_interrupted error_timed_out error_io :
      ErrorCode

-- What `errors.As` and `errors.Is` find in an error: an error number, itself or in a path error, or
-- one of the errors of the standard library, in the order of the tests.
pub data Error : Type 0 where
  no_error canceled deadline_exceeded not_exist permission exist unknown : Error
  errno path_errno : Errno → Error

unfoldable pub errno_of : Error → Errno
errno_of no_error = zero_errno
errno_of (errno e) = e
errno_of (path_errno e) = e
errno_of canceled = eintr
errno_of deadline_exceeded = etimedout
errno_of not_exist = enoent
errno_of permission = eacces
errno_of exist = eexist
errno_of unknown = eio

unfoldable pub code_of_errno : Errno → ErrorCode
code_of_errno zero_errno = error_none
code_of_errno eperm = error_not_permitted
code_of_errno eacces = error_permission
code_of_errno enoent = error_not_found
code_of_errno eexist = error_exists
code_of_errno ebadf = error_bad_handle
code_of_errno eisdir = error_is_dir
code_of_errno enotdir = error_not_dir
code_of_errno exdev = error_cross_dev
code_of_errno ebusy = error_busy
code_of_errno e2big = error_too_large
code_of_errno enotsup = error_unsupported
code_of_errno enosys = error_not_implemented
code_of_errno einval = error_invalid
code_of_errno eintr = error_interrupted
code_of_errno etimedout = error_timed_out
code_of_errno eio = error_io
code_of_errno (other n) = error_io

unfoldable pub error_code_of : Error → ErrorCode
unfolding errno_of code_of_errno
error_code_of e = code_of_errno (errno_of e)

unfoldable pub error_from_code : ErrorCode → Errno
error_from_code error_not_permitted = eperm
error_from_code error_permission = eacces
error_from_code error_not_found = enoent
error_from_code error_exists = eexist
error_from_code error_bad_handle = ebadf
error_from_code error_is_dir = eisdir
error_from_code error_not_dir = enotdir
error_from_code error_cross_dev = exdev
error_from_code error_busy = ebusy
error_from_code error_too_large = e2big
error_from_code error_unsupported = enotsup
error_from_code error_not_implemented = enosys
error_from_code error_invalid = einval
error_from_code error_interrupted = eintr
error_from_code error_timed_out = etimedout
error_from_code error_none = eio
error_from_code error_io = eio

-- The bits of `OpenFlags`, from the lowest: read, write, create, exclusive, truncate, append, sync.
abbrev pub known_flags : ℕ
known_flags = 127

-- `OpenFlags.Valid` on the 16 bits: `f &^ known` is what stands above the seven known bits, and
-- `f & (OpenRead | OpenWrite)` the two lowest bits.
unfoldable pub valid : ℕ → Bool
valid f = not (f == 0) && f / (known_flags + 1) == 0 && not (f % 4 == 0)
