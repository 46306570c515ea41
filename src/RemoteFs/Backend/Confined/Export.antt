-- ===== src/RemoteFs/Backend/Confined/Export.antt =====
-- The operations of the backend that change attributes and that close it, and all of them together.
use sshx.Prelude.{
  Bool, true, false, List, [], ◌∷◌, ℕ, ◌==◌, nat_eq, Option, none, some, ◌%◌, Bool-cases, inl, inr,
}
use sshx.Prelude.Text.{Bytes}
use sshx.Prelude.Map.{values}
use sshx.RemoteFs.Effect.{Result, ok}
use sshx.RemoteFs.Effect.Triple.{
  Triple, Any, After-any, done-Triple, bind-Triple, then-Triple, if-Triple, finally-Triple,
}
use sshx.RemoteFs.Os.{Root, SetAttr, file_info_to_attr}
use sshx.RemoteFs.Paths.Allowed.{IsAllowed}
use sshx.RemoteFs.Backend.{State}
use sshx.RemoteFs.Backend.Attributes.{
  write_only, or_current, file_of, set_size, set_mode, change_times, set_times, setattr,
}
use sshx.RemoteFs.Backend.Export.{first_error, close_files, close_backend, root_backend}
use sshx.RemoteFs.Backend.Confined.{
  Confines, Preserves, Within, on_root-Triple, cleaned-Triple, file-Triple,
}
use sshx.RemoteFs.Backend.Confined.Operations.{
  attr_of-Triple, lookup_attr-Triple, read_dir-Triple, open_handle-Triple, close-Triple, read_keeps,
  write_keeps, fsync-Triple, mkdir-Triple, remove-Triple, rename-Triple, link-Triple,
  symlink-Triple, readlink-Triple, stat_fs-Triple,
}

module _ {W F : Type 0} (os : Root W F) (P : W → Type 0) (excluded : List Bytes) (disabled : Bool)
    (h : Confines os P excluded disabled) where
  abbrev I : State W F → Type 0
  I = Within P excluded disabled

  file_of-Triple : (handle : ℕ) → Triple I (file_of handle) Any
  unfolding file_of
  file_of-Triple handle =
      if-Triple I Any (handle == 0) (λ _. done-Triple I Any none tt)
        (λ _.
          bind-Triple I Any Any (file-Triple P excluded disabled handle)
            (λ f _. done-Triple I Any (some f) tt))

  set_size-Triple :
      (n : Bytes)
      → IsAllowed excluded n
      → (f : Option F) (size : Option ℕ) → Triple I (set_size os n f size) Any
  unfolding set_size
  set_size-Triple n a f none = done-Triple I Any tt tt
  set_size-Triple n a (some f) (some size) =
      on_root-Triple P excluded disabled Any (h.truncate f size)
  set_size-Triple n a none (some size) =
      bind-Triple I Any Any (on_root-Triple P excluded disabled Any (h.open_file n write_only 0 a))
        (λ opened _.
          finally-Triple I Any (on_root-Triple P excluded disabled Any (h.truncate opened size))
            (on_root-Triple P excluded disabled Any (h.close_file opened)))

  set_mode-Triple :
      (n : Bytes)
      → IsAllowed excluded n
      → (f : Option F) (mode : Option ℕ) → Triple I (set_mode os n f mode) Any
  unfolding set_mode
  set_mode-Triple n a f none = done-Triple I Any tt tt
  set_mode-Triple n a (some f) (some mode) =
      on_root-Triple P excluded disabled Any (h.chmod_file f (mode % 512))
  set_mode-Triple n a none (some mode) =
      on_root-Triple P excluded disabled Any (h.chmod n (mode % 512) a)

  change_times-Triple :
      (n : Bytes)
      → IsAllowed excluded n
      → (atime mtime : Option ℕ) → Triple I (change_times os n atime mtime) Any
  unfolding change_times
  change_times-Triple n a atime mtime =
      bind-Triple I Any Any (on_root-Triple P excluded disabled Any (h.stat n a)) (λ info _.
        let current = file_info_to_attr info in
        on_root-Triple P excluded disabled Any (
          h.chtimes n (or_current atime current.atime_nano) (or_current mtime current.mtime_nano)
            a))

  set_times-Triple :
      (n : Bytes)
      → IsAllowed excluded n
      → (atime mtime : Option ℕ) → Triple I (set_times os n atime mtime) Any
  unfolding set_times
  set_times-Triple n a none none = done-Triple I Any tt tt
  set_times-Triple n a (some atime) mtime = change_times-Triple n a (some atime) mtime
  set_times-Triple n a none (some mtime) = change_times-Triple n a none (some mtime)

  setattr-Triple :
      (path : Bytes) (handle : ℕ) (change : SetAttr) → Triple I (setattr os path handle change) Any
  unfolding setattr
  setattr-Triple path handle change =
      bind-Triple I (IsAllowed excluded) Any (cleaned-Triple P excluded disabled path) (λ n a.
        bind-Triple I Any Any (file_of-Triple handle) (λ f _.
          then-Triple I Any (set_size-Triple n a f change.size) (
            then-Triple I Any (set_mode-Triple n a f change.mode) (
              then-Triple I Any (set_times-Triple n a change.atime_nano change.mtime_nano)
                (attr_of-Triple os P excluded disabled h n a)))))

  close_files_keeps :
      (fs : List F) (first : Result (Unit {0})) (w : W) → P w → P (close_files os fs first w).0
  unfolding close_files
  close_files_keeps [] first w p = p
  close_files_keeps (f ∷ fs) first w p =
      let (w', r) = os.close_file f w in
      close_files_keeps fs (first_error first r) w' ((h.close_file f).holds w p).0

  close_backend-Triple : Triple I (close_backend os) Any
  unfolding close_backend
  close_backend-Triple = record {
    holds = λ (b, w) (x, d, p).
        let (w', first) = close_files os (values b.handles) (ok tt) w in
        let kept = close_files_keeps (values b.handles) (ok tt) w p in
        let (w'', r) = os.close_root w' in
        let closed = (h.close_root.holds w' kept).0 in
        elim (Bool-cases b.is_closed) [
          | inl e ↦ rw e ((x, d, p), tt)
          | inr e ↦ rw e ((x, d, closed), After-any (first_error first r))
        ];
  }

  -- Whatever a request asks, a property of the file system that only calls at other paths could break
  -- stays true. With deletion disabled that holds of a property that removing a file, or moving it to
  -- another directory, would break.
  pub root_backend-Preserves : Preserves I (root_backend os)
  unfolding root_backend
  root_backend-Preserves = record {
    lookup = lookup_attr-Triple os P excluded disabled h;
    read_dir = read_dir-Triple os P excluded disabled h;
    open_handle = open_handle-Triple os P excluded disabled h;
    close = close-Triple os P excluded disabled h;
    read = read_keeps os P excluded disabled h;
    write = write_keeps os P excluded disabled h;
    fsync = fsync-Triple os P excluded disabled h;
    mkdir = mkdir-Triple os P excluded disabled h;
    unlink = λ name. remove-Triple os P excluded disabled h name false;
    rmdir = λ name. remove-Triple os P excluded disabled h name true;
    rename = rename-Triple os P excluded disabled h;
    link = link-Triple os P excluded disabled h;
    symlink = symlink-Triple os P excluded disabled h;
    readlink = readlink-Triple os P excluded disabled h;
    setattr = setattr-Triple;
    stat_fs = stat_fs-Triple os P excluded disabled h;
    close_backend = close_backend-Triple;
  }
