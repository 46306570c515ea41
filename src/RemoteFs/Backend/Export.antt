-- ===== src/RemoteFs/Backend/Export.antt =====
-- internal/remotefs/backend.go: `CloseBackend`, and the root backend as a `Backend`.
use sshx.Prelude.{true, false, List, [], ◌∷◌, if◌then◌else◌}
use sshx.Prelude.Map.{values}
use sshx.RemoteFs.Effect.{Result, ok, err, Action}
use sshx.RemoteFs.Os.{Root, Backend}
use sshx.RemoteFs.Backend.{State, lookup_attr, read_dir, open_handle, close, read, write, fsync}
use sshx.RemoteFs.Backend.Changes.{mkdir, remove, rename, link, symlink, readlink, stat_fs}
use sshx.RemoteFs.Backend.Attributes.{setattr}

-- The first error of two calls.
abbrev pub first_error : Result (Unit {0}) → Result (Unit {0}) → Result (Unit {0})
first_error (err e) r = err e
first_error (ok _) r = r

module _ {W F : Type 0} (os : Root W F) where
  -- The loop over the open files. Go takes them in any order, the model in that of the list.
  unfoldable pub close_files : List F → Result (Unit {0}) → W → W × Result (Unit {0})
  close_files [] first w = (w, first)
  close_files (f ∷ fs) first w =
      let (w', r) = os.close_file f w in close_files fs (first_error first r) w'

  unfoldable pub close_backend : Action (State W F) (Unit {0})
  unfolding close_files
  close_backend (b, w) =
      if b.is_closed
      then ((b, w), ok tt)
      else let (w', first) = close_files (values b.handles) (ok tt) w in
        let (w'', r) = os.close_root w' in
        ((record b { handles = []; is_closed = true }, w''), first_error first r)

  unfoldable pub root_backend : Backend (State W F)
  root_backend = record {
    lookup = lookup_attr os;
    read_dir = read_dir os;
    open_handle = open_handle os;
    close = close os;
    read = read os;
    write = write os;
    fsync = fsync os;
    mkdir = mkdir os;
    unlink = λ name. remove os name false;
    rmdir = λ name. remove os name true;
    rename = rename os;
    link = link os;
    symlink = symlink os;
    readlink = readlink os;
    setattr = setattr os;
    stat_fs = stat_fs os;
    close_backend = close_backend;
  }
