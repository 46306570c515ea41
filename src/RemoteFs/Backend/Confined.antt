-- ===== src/RemoteFs/Backend/Confined.antt =====
-- The backend touches the file system only at paths below its root and outside the excluded ones, and
-- with deletion disabled it removes nothing and moves nothing to another directory.
pub mod Operations
pub mod Export
use sshx.Prelude.{◌≡◌, ◌≢◌, ◌⊎◌, refl, Bool, true, false, not, List, ℕ, ◌==◌, bytes_eq, arith}
use sshx.Prelude.Text.{Bytes}
use sshx.RemoteFs.{Error}
use sshx.RemoteFs.Effect.{Result, ok, err, Action}
use sshx.RemoteFs.Effect.Triple.{Triple, Any, After}
use sshx.RemoteFs.Os.{Root, LocalFlags, Backend, SetAttr}
use sshx.RemoteFs.Paths.{path_dir, backend_clean_path}
use sshx.RemoteFs.Paths.Allowed.{IsAllowed, backend_clean_path-IsAllowed}
use sshx.RemoteFs.Backend.{State, on_root, cleaned, file, deletes_disabled, add_handle, take_handle}

-- `P` holds as long as the file system is touched at allowed paths only. A remove and a rename that
-- moves a file to another directory keep it where deletion is not disabled.
pub record Confines {W F : Type 0} (os : Root W F) (P : W → Type 0) (excluded : List Bytes)
    (disabled : Bool) : Type 0 where
  pub lstat : (n : Bytes) → IsAllowed excluded n → Triple P (os.lstat n) Any
  pub stat : (n : Bytes) → IsAllowed excluded n → Triple P (os.stat n) Any
  pub open_dir : (n : Bytes) → IsAllowed excluded n → Triple P (os.open_dir n) Any
  pub open_file :
      (n : Bytes) (flags : LocalFlags) (mode : ℕ)
      → IsAllowed excluded n
      → Triple P (os.open_file n flags mode) Any
  pub mkdir : (n : Bytes) (mode : ℕ) → IsAllowed excluded n → Triple P (os.mkdir n mode) Any
  pub remove : (n : Bytes) → IsAllowed excluded n → disabled ≡ false → Triple P (os.remove n) Any
  pub rename :
      (n m : Bytes)
      → IsAllowed excluded n
      → IsAllowed excluded m
      → (disabled ≡ false) ⊎ (path_dir n ≡ path_dir m)
      → Triple P (os.rename n m) Any
  pub link :
      (n m : Bytes) → IsAllowed excluded n → IsAllowed excluded m → Triple P (os.link n m) Any
  pub symlink : (target n : Bytes) → IsAllowed excluded n → Triple P (os.symlink target n) Any
  pub readlink : (n : Bytes) → IsAllowed excluded n → Triple P (os.readlink n) Any
  pub chmod : (n : Bytes) (mode : ℕ) → IsAllowed excluded n → Triple P (os.chmod n mode) Any
  pub chtimes : (n : Bytes) (a m : ℕ) → IsAllowed excluded n → Triple P (os.chtimes n a m) Any
  pub close_root : Triple P os.close_root Any
  pub stat_fs : (path : Bytes) → Triple P (os.stat_fs path) Any
  pub entries : (f : F) → Triple P (os.entries f) Any
  pub entry_info : (f : F) (name : Bytes) → Triple P (os.entry_info f name) Any
  pub stat_file : (f : F) → Triple P (os.stat_file f) Any
  pub read_at : (f : F) (offset size : ℕ) (w : W) → P w → P (os.read_at f offset size w).0
  pub write_at :
      (f : F) (offset : ℕ) (bytes : Bytes) (w : W) → P w → P (os.write_at f offset bytes w).0
  pub sync : (f : F) → Triple P (os.sync f) Any
  pub truncate : (f : F) (size : ℕ) → Triple P (os.truncate f size) Any
  pub chmod_file : (f : F) (mode : ℕ) → Triple P (os.chmod_file f mode) Any
  pub close_file : (f : F) → Triple P (os.close_file f) Any

-- An operation of a backend preserves `I`, whatever it is given.
pub record Preserves {S : Type 0} (I : S → Type 0) (backend : Backend S) : Type 0 where
  pub lookup : (path : Bytes) → Triple I (backend.lookup path) Any
  pub read_dir : (path : Bytes) → Triple I (backend.read_dir path) Any
  pub open_handle :
      (path : Bytes) (flags mode : ℕ) → Triple I (backend.open_handle path flags mode) Any
  pub close : (handle : ℕ) → Triple I (backend.close handle) Any
  pub read : (handle offset size : ℕ) (s : S) → I s → I (backend.read handle offset size s).0
  pub write :
      (handle offset : ℕ) (bytes : Bytes) (s : S) → I s → I (backend.write handle offset bytes s).0
  pub fsync : (handle : ℕ) → Triple I (backend.fsync handle) Any
  pub mkdir : (path : Bytes) (mode : ℕ) → Triple I (backend.mkdir path mode) Any
  pub unlink : (path : Bytes) → Triple I (backend.unlink path) Any
  pub rmdir : (path : Bytes) → Triple I (backend.rmdir path) Any
  pub rename : (old_path new_path : Bytes) → Triple I (backend.rename old_path new_path) Any
  pub link : (old_path new_path : Bytes) → Triple I (backend.link old_path new_path) Any
  pub symlink : (target path : Bytes) → Triple I (backend.symlink target path) Any
  pub readlink : (path : Bytes) → Triple I (backend.readlink path) Any
  pub setattr :
      (path : Bytes) (handle : ℕ) (change : SetAttr)
      → Triple I (backend.setattr path handle change) Any
  pub stat_fs : Triple I backend.stat_fs Any
  pub close_backend : Triple I backend.close_backend Any

-- The options stay, and `P` holds of the file system.
abbrev pub Within : {W F : Type 0} → (W → Type 0) → List Bytes → Bool → State W F → Type 0
Within P excluded disabled (b, w) = (b.excluded ≡ excluded) × (b.disable_delete ≡ disabled) × P w

cleaned-After :
    (excluded : List Bytes) (name : Bytes) (r : Result Bytes)
    → backend_clean_path excluded name ≡ r
    → After (IsAllowed excluded) r
cleaned-After excluded name (ok clean) e = backend_clean_path-IsAllowed excluded name clean e
cleaned-After excluded name (err e) h = tt

module _ {W F : Type 0} (P : W → Type 0) (excluded : List Bytes) (disabled : Bool) where
  pub on_root-Triple :
      {A : Type 0} (Q : A → Type 0) {m : Action W A}
      → Triple P m Q
      → Triple (Within {F = F} P excluded disabled) (on_root m) Q
  unfolding on_root
  on_root-Triple Q {m = m} h = record {
    holds = λ (b, w) (x, d, p). ((x, d, (h.holds w p).0), (h.holds w p).1);
  }

  pub cleaned-Triple :
      (name : Bytes)
      → Triple (Within {F = F} P excluded disabled) (cleaned name) (IsAllowed excluded)
  unfolding cleaned
  cleaned-Triple name = record {
    holds = λ (b, w) (x, d, p).
        ((x, d, p), rw x (cleaned-After excluded name (backend_clean_path excluded name) refl));
  }

  pub file-Triple : (handle : ℕ) → Triple (Within {F = F} P excluded disabled) (file handle) Any
  unfolding file
  file-Triple handle = record { holds = λ (b, w) (x, d, p). ground arith }

  pub take_handle-Triple :
      (handle : ℕ) → Triple (Within {F = F} P excluded disabled) (take_handle handle) Any
  unfolding take_handle
  take_handle-Triple handle = record { holds = λ (b, w) (x, d, p). ground arith }

  pub add_handle-Triple : (f : F) → Triple (Within {F = F} P excluded disabled) (add_handle f) Any
  unfolding add_handle
  add_handle-Triple f = record { holds = λ (b, w) (x, d, p). ((x, d, p), tt) }

  pub deletes_disabled-Triple :
      Triple (Within {F = F} P excluded disabled) deletes_disabled (λ d. d ≡ disabled)
  unfolding deletes_disabled
  deletes_disabled-Triple = record { holds = λ (b, w) (x, d, p). ((x, d, p), d) }
