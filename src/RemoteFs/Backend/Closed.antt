-- ===== src/RemoteFs/Backend/Closed.antt =====
-- Handles that are closed are refused.
use sshx.Prelude.{
  ℕ, ◌≡◌, ◌≢◌, refl, none, [], nat_eq, eq_refl, eq_iff, ◌==◌, false, arith, if◌then◌else◌, leb,
  length, Bool-cases, Option-cases, inl, inr,
}
use sshx.Prelude.Text.{Bytes}
use sshx.Prelude.Map.{Map, lookup, delete, lookup-delete, delete_absent}
use sshx.RemoteFs.{Error, errno, ebadf, e2big}
use sshx.RemoteFs.Effect.{Result, ok, err, ◌>>=◌, ◌>>◌}
use sshx.RemoteFs.Os.{Root, SetAttr}
use sshx.RemoteFs.Paths.{backend_clean_path}
use sshx.RemoteFs.Backend.Attributes.{setattr, file_of}
use sshx.RemoteFs.Backend.{
  RootBackend, State, on_root, cleaned, file, take_handle, close, read, write, fsync, max_data_size,
}

-- What the operations on a handle answer: each of them refuses it and touches nothing.
abbrev pub error_of_path : Result Bytes → Error
error_of_path (err e) = e
error_of_path (ok name) = errno ebadf

-- `Setattr` looks at its path first.
abbrev pub refused_path : {W F : Type 0} → Bytes → State W F → Error
refused_path path s = error_of_path (cleaned path s).1

abbrev pub Refused : {W F : Type 0} → Root W F → ℕ → State W F → Type 0
Refused os handle s =
    (close os handle s ≡ (s, err (errno ebadf)))
    × ((path : Bytes) (change : SetAttr)
        → setattr os path handle change s ≡ (s, err (refused_path path s)))
    × (fsync os handle s ≡ (s, err (errno ebadf)))
    × ((offset size : ℕ) → read os handle offset size s ≡ (s, ([], errno ebadf)))
    × ((offset : ℕ) (bytes : Bytes)
        → write os handle offset bytes s
          ≡ (s, (0, if leb (length bytes) max_data_size then errno ebadf else errno e2big)))

file-unbound :
    {W F : Type 0} (handle : ℕ) (b : RootBackend F) (w : W)
    → lookup handle b.handles ≡ none
    → file handle (b, w) ≡ ((b, w), err (errno ebadf))
unfolding file
file-unbound handle b w e = rw (e, file)

take_handle-unbound :
    {W F : Type 0} (handle : ℕ) (b : RootBackend F) (w : W)
    → lookup handle b.handles ≡ none
    → take_handle handle (b, w) ≡ ((b, w), err (errno ebadf))
unfolding take_handle
take_handle-unbound handle b w e = rw (e, delete_absent handle b.handles e, take_handle)

read-unbound :
    {W F : Type 0} (os : Root W F) (handle : ℕ) (b : RootBackend F) (w : W)
    → lookup handle b.handles ≡ none
    → (offset size : ℕ) → read os handle offset size (b, w) ≡ ((b, w), ([], errno ebadf))
unfolding read
read-unbound os handle b w e offset size = rw (e, read)

write-unbound :
    {W F : Type 0} (os : Root W F) (handle : ℕ) (b : RootBackend F) (w : W)
    → lookup handle b.handles ≡ none
    → (offset : ℕ) (bytes : Bytes)
    → write os handle offset bytes (b, w)
      ≡ ((b, w), (0, if leb (length bytes) max_data_size then errno ebadf else errno e2big))
unfolding write
write-unbound os handle b w e offset bytes = elim (Bool-cases (leb (length bytes) max_data_size)) [
  | inl fits ↦ rw (fits, e)
  | inr large ↦ rw large
]

setattr_named :
    {W F : Type 0} (os : Root W F) (handle : ℕ) (b : RootBackend F) (w : W)
    → (handle == 0) ≡ false
    → lookup handle b.handles ≡ none
    → (path : Bytes) (change : SetAttr) (r : Result Bytes) → backend_clean_path b.excluded path ≡ r
    → setattr os path handle change (b, w) ≡ ((b, w), err (error_of_path r))
unfolding setattr cleaned file_of ◌>>=◌ ◌>>◌
setattr_named os handle b w n e path change (err x) q = rw q
setattr_named os handle b w n e path change (ok name) q = rw (q, n, file-unbound handle b w e)

setattr-unbound :
    {W F : Type 0} (os : Root W F) (handle : ℕ) (b : RootBackend F) (w : W)
    → handle ≢ 0
    → lookup handle b.handles ≡ none
    → (path : Bytes) (change : SetAttr)
    → setattr os path handle change (b, w) ≡ ((b, w), err (refused_path path (b, w)))
unfolding cleaned
setattr-unbound os handle b w n e path change =
    setattr_named os handle b w (ground (arith, eq_iff handle 0)) e path change
      (backend_clean_path b.excluded path) refl

unbound-Refused :
    {W F : Type 0} (os : Root W F) (handle : ℕ) (b : RootBackend F) (w : W)
    → handle ≢ 0
    → lookup handle b.handles ≡ none
    → Refused os handle (b, w)
unfolding close fsync ◌>>=◌
unbound-Refused os handle b w n e = (
  rw (take_handle-unbound handle b w e),
  setattr-unbound os handle b w n e,
  rw (file-unbound handle b w e),
  read-unbound os handle b w e,
  write-unbound os handle b w e,
)

close_table :
    {W F : Type 0} (os : Root W F) (handle : ℕ) (b : RootBackend F) (w : W)
    → (close os handle (b, w)).0.0 ≡ record b { handles = delete handle b.handles }
unfolding close take_handle ◌>>=◌ on_root
close_table os handle b w = elim (Option-cases (lookup handle b.handles)) [
  | inl e ↦ rw (e, take_handle)
  | inr (f, e) ↦ rw (e, take_handle)
]

lookup-delete-other :
    {F : Type 0} (k j : ℕ) (m : Map ℕ F) → j ≢ k → lookup j (delete k m) ≡ lookup j m
lookup-delete-other k j m n = ground (arith, lookup-delete k j m)

-- A handle that has been closed, other than the 0 that stands for none in `Setattr`, is refused by
-- every operation that takes one, which then leaves the table and the file system as they are; the
-- other handles stay bound to their files.
pub close-Refused :
    {W F : Type 0} (os : Root W F) (handle : ℕ) (b : RootBackend F) (w : W)
    → handle ≢ 0
    → let s = (close os handle (b, w)).0 in
      Refused os handle s × ((j : ℕ) → j ≢ handle → lookup j s.0.handles ≡ lookup j b.handles)
close-Refused os handle b w n =
    let s = (close os handle (b, w)).0 in
    (
      unbound-Refused os handle s.0 s.1 n
          (rw (close_table os handle b w, lookup-delete handle handle b.handles, eq_refl handle)),
      (λ j n. rw (close_table os handle b w) (lookup-delete-other handle j b.handles n)),
    )
