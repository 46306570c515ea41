-- ===== src/RemoteFs/Backend/Confined/Operations.antt =====
-- Each operation of the backend is confined.
use sshx.Prelude.{
  ◌≡◌, ◌⊎◌, inl, inr, Bool, true, false, not, ◌&&◌, List, [], ◌∷◌, ℕ, ◌==◌, bytes_eq, nat_eq, sym,
  ◌∙◌, eq_iff, arith, Bool-cases, inl, inr, Option-cases, leb, length, if◌then◌else◌, ◌%◌,
}
use sshx.Prelude.Text.{Bytes}
use sshx.Prelude.Map.{lookup}
use sshx.RemoteFs.{errno, eperm, enotdir, eisdir}
use sshx.RemoteFs.Effect.{Action, ◌>>=◌}
use sshx.RemoteFs.Effect.Triple.{
  Triple, Any, After-any, done-Triple, fail-Triple, bind-Triple, then-Triple, if-Triple,
  finally-Triple, on_failure-Triple,
}
use sshx.RemoteFs.Os.{Root, is_visible_mode, is_regular, file_info_to_attr}
use sshx.RemoteFs.Paths.{path_dir, path_join}
use sshx.RemoteFs.Paths.Allowed.{IsAllowed}
use sshx.RemoteFs.Backend.{
  State, on_root, cleaned, attr_of, lookup_attr, visible_entries, read_dir, open_handle, close,
  fsync, read, write, close_file, local_open_flags, is_listed, max_data_size,
}
use sshx.RemoteFs.Backend.Changes.{mkdir, remove, rename, link, symlink, readlink, stat_fs}
use sshx.RemoteFs.Backend.Confined.{
  Confines, Within, on_root-Triple, cleaned-Triple, file-Triple, take_handle-Triple,
  add_handle-Triple, deletes_disabled-Triple,
}

guard_cases : (d b : Bool) → (d && not b) ≡ false → (d ≡ false) ⊎ (b ≡ true)
guard_cases d b g = ground arith

module _ {W F : Type 0} (os : Root W F) (P : W → Type 0) (excluded : List Bytes) (disabled : Bool)
    (h : Confines os P excluded disabled) where
  -- The invariant of every operation.
  abbrev I : State W F → Type 0
  I = Within P excluded disabled

  call : {A : Type 0} {m : Action W A} → Triple P m Any → Triple I (on_root m) Any
  call = on_root-Triple P excluded disabled Any

  -- An operation that starts with `cleanPath`.
  at :
      {B : Type 0} (name : Bytes) {f : Bytes → Action (State W F) B}
      → ((n : Bytes) → IsAllowed excluded n → Triple I (f n) Any)
      → Triple I (cleaned name >>= f) Any
  at name = bind-Triple I (IsAllowed excluded) Any (cleaned-Triple P excluded disabled name)

  after :
      {A B : Type 0} {m : Action (State W F) A} {f : A → Action (State W F) B}
      → Triple I m Any
      → ((a : A) → Triple I (f a) Any)
      → Triple I (m >>= f) Any
  after hm hf = bind-Triple I Any Any hm (λ a _. hf a)

  pub attr_of-Triple : (n : Bytes) → IsAllowed excluded n → Triple I (attr_of os n) Any
  unfolding attr_of
  attr_of-Triple n a =
      after (call (h.lstat n a)) (λ info. done-Triple I Any (file_info_to_attr info) tt)

  pub lookup_attr-Triple : (path : Bytes) → Triple I (lookup_attr os path) Any
  unfolding lookup_attr
  lookup_attr-Triple path = at path (λ n a. after (call (h.lstat n a)) (λ info.
      if-Triple I Any (not (is_visible_mode info.mode)) (λ _. fail-Triple I Any (errno eperm))
        (λ _. done-Triple I Any (file_info_to_attr info) tt)))

  close_file-Triple : (f : F) → Triple I (close_file os f) Any
  close_file-Triple f = call (h.close_file f)

  is_listed-Triple : (path : Bytes) → Triple I (is_listed path) Any
  unfolding is_listed
  is_listed-Triple path = record { holds = λ (b, w) i. (i, tt) }

  visible_entries-Triple :
      (f : F) (name : Bytes) (entries : List Bytes)
      → Triple I (visible_entries os f name entries) Any
  unfolding visible_entries
  visible_entries-Triple f name [] = done-Triple I Any [] tt
  visible_entries-Triple f name (entry ∷ entries) =
      let rest = visible_entries-Triple f name entries in
      after (is_listed-Triple (path_join name entry)) (λ listed.
        if-Triple I Any (not listed) (λ _. rest)
          (λ _. after (call (h.entry_info f entry)) (λ info.
            if-Triple I Any (not (is_visible_mode info.mode)) (λ _. rest)
              (λ _. after rest (λ out.
                let attr = file_info_to_attr info in
                done-Triple I Any (record { name = entry; mode = attr.mode; ino = attr.ino } ∷ out)
                  tt)))))

  pub read_dir-Triple : (path : Bytes) → Triple I (read_dir os path) Any
  unfolding read_dir
  read_dir-Triple path = at path (λ n a. after (call (h.open_dir n a)) (λ f.
      finally-Triple I Any (after (call (h.entries f)) (λ es. visible_entries-Triple f n es))
        (close_file-Triple f)))

  flags-Triple : (flags : ℕ) → Triple I (λ s. (s, local_open_flags flags)) Any
  flags-Triple flags = record { holds = λ s i. (i, After-any (local_open_flags flags)) }

  pub open_handle-Triple :
      (path : Bytes) (flags mode : ℕ) → Triple I (open_handle os path flags mode) Any
  unfolding open_handle
  open_handle-Triple path flags mode = at path (λ n a. after (flags-Triple flags) (λ local_flags.
      after (call (h.open_file n local_flags (mode % 512) a)) (λ f.
        after (on_failure-Triple I Any (call (h.stat_file f)) (close_file-Triple f)) (λ info.
          if-Triple I Any (not (is_regular info.mode))
            (λ _. finally-Triple I Any (fail-Triple I Any (errno eperm)) (close_file-Triple f))
            (λ _.
              after (add_handle-Triple P excluded disabled f)
                (λ id. done-Triple I Any (id, file_info_to_attr info) tt))))))

  pub close-Triple : (handle : ℕ) → Triple I (close os handle) Any
  unfolding close
  close-Triple handle = after (take_handle-Triple P excluded disabled handle) close_file-Triple

  pub read_keeps :
      (handle offset size : ℕ) (s : State W F) → I s → I (read os handle offset size s).0
  unfolding read
  read_keeps handle offset size (b, w) i = elim (Option-cases (lookup handle b.handles)) [
    | inl e ↦ rw (e, read) i
    | inr (f, e) ↦
        rw (e, read)
          (
            i.0,
            i.1,
            h.read_at f offset (if leb size max_data_size then size else max_data_size) w i.2,
          )
  ]

  pub write_keeps :
      (handle offset : ℕ) (bytes : Bytes) (s : State W F)
      → I s
      → I (write os handle offset bytes s).0
  unfolding write
  write_keeps handle offset bytes (b, w) i = elim (Bool-cases (leb (length bytes) max_data_size)) [
    | inl fits ↦ elim (Option-cases (lookup handle b.handles)) [
      | inl e ↦ rw (fits, e) i
      | inr (f, e) ↦ rw (fits, e) (i.0, i.1, h.write_at f offset bytes w i.2)
    ]
    | inr large ↦ rw large i
  ]

  pub fsync-Triple : (handle : ℕ) → Triple I (fsync os handle) Any
  unfolding fsync
  fsync-Triple handle = after (file-Triple P excluded disabled handle) (λ f. call (h.sync f))

  pub mkdir-Triple : (path : Bytes) (mode : ℕ) → Triple I (mkdir os path mode) Any
  unfolding mkdir
  mkdir-Triple path mode =
      at path (λ n a. then-Triple I Any (call (h.mkdir n (mode % 512) a)) (attr_of-Triple n a))

  pub remove-Triple : (path : Bytes) (directory : Bool) → Triple I (remove os path directory) Any
  unfolding remove
  remove-Triple path directory =
      bind-Triple I (λ d. d ≡ disabled) Any (deletes_disabled-Triple P excluded disabled)
        (λ d e.
          if-Triple I Any d (λ _. fail-Triple I Any (errno eperm))
            (λ off. at path (λ n a. after (call (h.lstat n a)) (λ info.
              if-Triple I Any (directory && not info.mode.is_dir)
                (λ _. fail-Triple I Any (errno enotdir))
                (λ _.
                  if-Triple I Any (not directory && info.mode.is_dir)
                    (λ _. fail-Triple I Any (errno eisdir)) (λ _. call (h.remove n a cc)))))))

  -- The guard of `Rename`.
  moves_allowed :
      (d : Bool) (n m : Bytes)
      → d ≡ disabled
      → (d && not (path_dir n == path_dir m)) ≡ false
      → (disabled ≡ false) ⊎ (path_dir n ≡ path_dir m)
  moves_allowed d n m e g =
      let passed : (d ≡ false) ⊎ ((path_dir n == path_dir m) ≡ true) =
        guard_cases d (path_dir n == path_dir m) g in
      elim passed [
        | inl off ↦ inl (sym e ∙ off)
        | inr same ↦ inr ((eq_iff (path_dir n) (path_dir m)).0 same)
      ]

  pub rename-Triple : (old_path new_path : Bytes) → Triple I (rename os old_path new_path) Any
  unfolding rename
  rename-Triple old_path new_path = at old_path (λ n a. at new_path (λ m b.
      bind-Triple I (λ d. d ≡ disabled) Any (deletes_disabled-Triple P excluded disabled)
        (λ d e.
          if-Triple I Any (d && not (path_dir n == path_dir m))
            (λ _. fail-Triple I Any (errno eperm))
            (λ g. call (h.rename n m a b (moves_allowed d n m e g))))))

  pub link-Triple : (old_path new_path : Bytes) → Triple I (link os old_path new_path) Any
  unfolding link
  link-Triple old_path new_path =
      at old_path
        (λ n a. at new_path (λ m b. then-Triple I Any (call (h.link n m a b)) (attr_of-Triple m b)))

  pub symlink-Triple : (target path : Bytes) → Triple I (symlink os target path) Any
  unfolding symlink
  symlink-Triple target path =
      at path (λ n a. then-Triple I Any (call (h.symlink target n a)) (attr_of-Triple n a))

  pub readlink-Triple : (path : Bytes) → Triple I (readlink os path) Any
  unfolding readlink
  readlink-Triple path = at path (λ n a. call (h.readlink n a))

  pub stat_fs-Triple : Triple I (stat_fs os) Any
  unfolding stat_fs
  stat_fs-Triple = record { holds = λ (b, w) i. (call (h.stat_fs b.root_path)).holds (b, w) i }
