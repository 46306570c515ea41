-- ===== src/Tests/Exports.antt =====
-- Tests and examples for the exported directory: a file system that keeps a log of its calls.
use sshx.Prelude.{
  ℕ, ◌+◌, ◌≡◌, ◌≢◌, refl, nat_eq, Bool, true, false, Option, none, some, List, [], ◌∷◌, All, arith,
  inl, inr,
}
use sshx.Prelude.Text.{Bytes, codes}
use sshx.Prelude.Map.{lookup}
use sshx.RemoteFs.{no_error, errno, eperm}
use sshx.RemoteFs.Effect.{ok, err, Action}
use sshx.RemoteFs.Effect.Triple.{Triple, Any}
use sshx.RemoteFs.Os.{Root, FileInfo, StatFs, read_all}
use sshx.RemoteFs.Paths.{clean_path, backend_clean_path, path_dir}
use sshx.RemoteFs.Paths.Allowed.{IsAllowed}
use sshx.RemoteFs.Backend.{RootBackend, State, open_root_backend, open_handle, close}
use sshx.RemoteFs.Backend.Export.{root_backend}
use sshx.RemoteFs.Backend.Table.{open_root_backend-IsCounted, Opened, open_handle-Opened}
use sshx.RemoteFs.Backend.Closed.{Refused, close-Refused}
use sshx.RemoteFs.Backend.Confined.{Confines, Within, Preserves}
use sshx.RemoteFs.Backend.Confined.Export.{root_backend-Preserves}

-- The paths that were touched, and how many files were removed.
abbrev Log : Type 0
Log = List Bytes × ℕ

abbrev file_info : FileInfo
file_info = record {
  size = 5;
  mode = record { perm = 420; is_dir = false; is_symlink = false; is_special = false };
  mod_time = 7;
  sys = none;
}

abbrev no_space : StatFs
no_space = record {
  blocks = 0;
  bfree = 0;
  bavail = 0;
  files = 0;
  ffree = 0;
  bsize = 0;
  name_len = 0;
  frsize = 0;
}

abbrev touch : {A : Type 0} → A → Bytes → Action Log A
touch a name (touched, removed) = ((name ∷ touched, removed), ok a)

abbrev touch_both : Bytes → Bytes → Action Log (Unit {0})
touch_both a b (touched, removed) = ((a ∷ b ∷ touched, removed), ok tt)

abbrev take_away : Bytes → Action Log (Unit {0})
take_away name (touched, removed) = ((name ∷ touched, removed + 1), ok tt)

abbrev idle : {A : Type 0} → A → Action Log A
idle a s = (s, ok a)

abbrev log_os : Root Log ℕ
log_os = record {
  lstat = touch file_info;
  stat = touch file_info;
  open_dir = touch 8;
  open_file = λ name flags mode. touch 9 name;
  mkdir = λ name mode. touch tt name;
  remove = take_away;
  rename = touch_both;
  link = touch_both;
  symlink = λ target name. touch tt name;
  readlink = touch [];
  chmod = λ name mode. touch tt name;
  chtimes = λ name a m. touch tt name;
  close_root = idle tt;
  stat_fs = λ path. idle no_space;
  entries = λ f. idle (codes "a" ∷ codes "mnt" ∷ []);
  entry_info = λ f name. idle file_info;
  stat_file = λ f. idle file_info;
  read_at = λ f offset size s. (s, (codes "hello", read_all));
  write_at = λ f offset bytes s. (s, (0, no_error));
  sync = λ f. idle tt;
  truncate = λ f size. idle tt;
  chmod_file = λ f mode. idle tt;
  close_file = λ f. idle tt;
}

-- The mount root of the session is left out of the export.
abbrev excluded : List Bytes
excluded = codes "mnt" ∷ []

abbrev export : RootBackend ℕ
export = open_root_backend (codes "/home/u") true excluded

clean_path_examples :
    (clean_path (codes "a/../b//c") ≡ ok (codes "b/c"))
    × (clean_path (codes "../x") ≡ err (errno eperm))
    × (clean_path (codes "/etc") ≡ err (errno eperm))
    × (backend_clean_path excluded (codes "x/../mnt/y") ≡ err (errno eperm))
    × (backend_clean_path excluded (codes "mntx") ≡ ok (codes "mntx"))
    × (path_dir (codes "a/b/c") ≡ codes "a/b")
    × (path_dir (codes "c") ≡ codes ".")
unfolding clean_path sshx.Prelude.bytes_beq sshx.Prelude.Text.has_prefix
    sshx.RemoteFs.Layout.path_clean sshx.Prelude.Text.join sshx.Prelude.Text.split
    backend_clean_path path_dir
clean_path_examples = (refl, refl, refl, refl, refl, refl, refl)

-- Only allowed paths were touched, and nothing was removed.
IsHarmless : Log → Type 0
IsHarmless (touched, removed) = All (IsAllowed excluded) touched × (removed ≡ 0)

touch-Triple :
    {A : Type 0} (a : A) (name : Bytes)
    → IsAllowed excluded name
    → Triple IsHarmless (touch a name) Any
unfolding IsHarmless
touch-Triple a name h = record { holds = λ (touched, removed) (p, z). (((h, p), z), tt) }

touch_both-Triple :
    (a b : Bytes)
    → IsAllowed excluded a
    → IsAllowed excluded b
    → Triple IsHarmless (touch_both a b) Any
unfolding IsHarmless
touch_both-Triple a b h k = record { holds = λ (touched, removed) (p, z). (((h, (k, p)), z), tt) }

idle-Triple : {A : Type 0} (a : A) → Triple IsHarmless (idle a) Any
idle-Triple a = record { holds = λ s p. (p, tt) }

log_os-Confines : Confines log_os IsHarmless excluded true
log_os-Confines = record {
  lstat = touch-Triple file_info;
  stat = touch-Triple file_info;
  open_dir = touch-Triple 8;
  open_file = λ name flags mode. touch-Triple 9 name;
  mkdir = λ name mode. touch-Triple tt name;
  remove = λ name h e. cc;
  rename = λ a b h k e. touch_both-Triple a b h k;
  link = touch_both-Triple;
  symlink = λ target name. touch-Triple tt name;
  readlink = touch-Triple [];
  chmod = λ name mode. touch-Triple tt name;
  chtimes = λ name a m. touch-Triple tt name;
  close_root = idle-Triple tt;
  stat_fs = λ path. idle-Triple no_space;
  entries = λ f. idle-Triple (codes "a" ∷ codes "mnt" ∷ []);
  entry_info = λ f name. idle-Triple file_info;
  stat_file = λ f. idle-Triple file_info;
  read_at = λ f offset size s p. p;
  write_at = λ f offset bytes s p. p;
  sync = λ f. idle-Triple tt;
  truncate = λ f size. idle-Triple tt;
  chmod_file = λ f mode. idle-Triple tt;
  close_file = λ f. idle-Triple tt;
}

root_backend-Preserves_example : Preserves (Within IsHarmless excluded true) (root_backend log_os)
root_backend-Preserves_example =
    root_backend-Preserves log_os IsHarmless excluded true log_os-Confines

open_handle-Opened_example :
    let opened = open_handle log_os (codes "a/b") 3 420 (export, ([], 0)) in
    Opened export opened.0 opened.1
unfolding open_root_backend
open_handle-Opened_example =
    open_handle-Opened log_os export (codes "a/b") 3 420 ([], 0)
      (open_root_backend-IsCounted ℕ (codes "/home/u") true excluded) (omega arith)

-- `a/b` was opened under the handle 2.
opened : State Log ℕ
opened = (open_handle log_os (codes "a/b") 3 420 (export, ([], 0))).0

close-Refused_example :
    let s = (close log_os 2 opened).0 in
    Refused log_os 2 s × ((j : ℕ) → j ≢ 2 → lookup j s.0.handles ≡ lookup j opened.0.handles)
close-Refused_example = close-Refused log_os 2 opened.0 opened.1 (omega arith)
