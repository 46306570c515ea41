-- ===== src/RemoteFs/Codes.antt =====
-- An error that crosses the wire keeps what the protocol says of it.
use sshx.Prelude.{◌≡◌, ◌≢◌, ◌⊎◌, refl, inl, inr}
use sshx.RemoteFs.{
  Errno, ErrorCode, Error, errno, zero_errno, other, eio, error_none, errno_of, code_of_errno,
  error_code_of, error_from_code,
}

-- Every code but that of success is the code of the error that it is turned into, so that an error
-- that is sent on, over any number of peers, keeps its code.
pub error_code_of-error_from_code :
    (c : ErrorCode) → c ≢ error_none → error_code_of (errno (error_from_code c)) ≡ c
unfolding error_code_of errno_of code_of_errno error_from_code
error_code_of-error_from_code error_none h = absurd (h refl)
error_code_of-error_from_code ErrorCode.error_permission h = refl
error_code_of-error_from_code ErrorCode.error_not_permitted h = refl
error_code_of-error_from_code ErrorCode.error_not_found h = refl
error_code_of-error_from_code ErrorCode.error_exists h = refl
error_code_of-error_from_code ErrorCode.error_bad_handle h = refl
error_code_of-error_from_code ErrorCode.error_is_dir h = refl
error_code_of-error_from_code ErrorCode.error_not_dir h = refl
error_code_of-error_from_code ErrorCode.error_cross_dev h = refl
error_code_of-error_from_code ErrorCode.error_busy h = refl
error_code_of-error_from_code ErrorCode.error_too_large h = refl
error_code_of-error_from_code ErrorCode.error_unsupported h = refl
error_code_of-error_from_code ErrorCode.error_not_implemented h = refl
error_code_of-error_from_code ErrorCode.error_invalid h = refl
error_code_of-error_from_code ErrorCode.error_interrupted h = refl
error_code_of-error_from_code ErrorCode.error_timed_out h = refl
error_code_of-error_from_code ErrorCode.error_io h = refl

errno_back :
    (e : Errno)
    → e ≢ zero_errno
    → (error_from_code (code_of_errno e) ≡ e) ⊎ (error_from_code (code_of_errno e) ≡ eio)
unfolding code_of_errno error_from_code
errno_back zero_errno h = absurd (h refl)
errno_back Errno.eperm h = inl refl
errno_back Errno.eacces h = inl refl
errno_back Errno.enoent h = inl refl
errno_back Errno.eexist h = inl refl
errno_back Errno.ebadf h = inl refl
errno_back Errno.eisdir h = inl refl
errno_back Errno.enotdir h = inl refl
errno_back Errno.exdev h = inl refl
errno_back Errno.ebusy h = inl refl
errno_back Errno.e2big h = inl refl
errno_back Errno.enotsup h = inl refl
errno_back Errno.enosys h = inl refl
errno_back Errno.einval h = inl refl
errno_back Errno.eintr h = inl refl
errno_back Errno.etimedout h = inl refl
errno_back Errno.eio h = inl refl
errno_back (other n) h = inr refl

-- An error that is not success comes back as its own number, or as EIO where the protocol has no
-- code for it.
pub error_from_code-error_code_of :
    (e : Error)
    → errno_of e ≢ zero_errno
    → (error_from_code (error_code_of e) ≡ errno_of e) ⊎ (error_from_code (error_code_of e) ≡ eio)
unfolding error_code_of
error_from_code-error_code_of e h = errno_back (errno_of e) h
