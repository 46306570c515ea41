-- ===== src/RemoteFs/Os.antt =====
-- internal/remotefs: the data of the file operations (types.go), and what backend.go and
-- stat_linux.go take from the operating system: `os.Root` is a parameter.
use sshx.Prelude.{ℕ, ◌+◌, ◌%◌, ◌^◌, Bool, not, ◌||◌, Option, none, some, List, if◌then◌else◌}
use sshx.Prelude.Text.{Bytes}
use sshx.RemoteFs.{Error}
use sshx.RemoteFs.Effect.{Action}

-- Numbers of 64 bits, the signed ones too, are their words.
pub record Attr : Type 0 where
  pub ino : ℕ
  pub size : ℕ
  pub blocks : ℕ
  pub mode : ℕ
  pub nlink : ℕ
  pub atime_nano : ℕ
  pub mtime_nano : ℕ
  pub ctime_nano : ℕ

pub record DirEntry : Type 0 where
  pub name : Bytes
  pub mode : ℕ
  pub ino : ℕ

pub record SetAttr : Type 0 where
  pub mode : Option ℕ
  pub size : Option ℕ
  pub atime_nano : Option ℕ
  pub mtime_nano : Option ℕ

pub record StatFs : Type 0 where
  pub blocks : ℕ
  pub bfree : ℕ
  pub bavail : ℕ
  pub files : ℕ
  pub ffree : ℕ
  pub bsize : ℕ
  pub name_len : ℕ
  pub frsize : ℕ

-- `fs.FileMode`: the permission bits, and the bits of the type.
pub record FileMode : Type 0 where
  pub perm : ℕ
  pub is_dir : Bool
  pub is_symlink : Bool
  pub is_special : Bool

-- `syscall.Stat_t`, and `fs.FileInfo` with it behind `Sys` where the system gives one.
pub record Stat : Type 0 where
  pub ino : ℕ
  pub blocks : ℕ
  pub nlink : ℕ
  pub atime : ℕ
  pub mtime : ℕ
  pub ctime : ℕ

pub record FileInfo : Type 0 where
  pub size : ℕ
  pub mode : FileMode
  pub mod_time : ℕ
  pub sys : Option Stat

unfoldable pub is_regular : FileMode → Bool
is_regular m = not (m.is_dir || m.is_symlink || m.is_special)

unfoldable pub is_visible_mode : FileMode → Bool
unfolding is_regular
is_visible_mode m = is_regular m || m.is_dir || m.is_symlink

-- The permissions, with S_IFDIR, S_IFLNK or S_IFREG above them.
unfoldable pub file_mode : FileMode → ℕ
file_mode m = m.perm % 512 + (if m.is_dir then 16384 else if m.is_symlink then 40960 else 32768)

unfoldable pub file_info_to_attr : FileInfo → Attr
unfolding file_mode
file_info_to_attr info = elim info.sys [
  | none ↦ record {
    ino = 0;
    size = info.size;
    blocks = 0;
    mode = file_mode info.mode;
    nlink = 1;
    atime_nano = info.mod_time;
    mtime_nano = info.mod_time;
    ctime_nano = info.mod_time;
  }
  | some stat ↦ record {
    ino = stat.ino;
    size = info.size;
    blocks = stat.blocks;
    mode = file_mode info.mode;
    nlink = stat.nlink % 2 ^ 32;
    atime_nano = stat.atime;
    mtime_nano = stat.mtime;
    ctime_nano = stat.ctime;
  }
]

-- The flags of `os.OpenFile` that the source sets: the access mode and the bits O_CREATE, O_EXCL,
-- O_TRUNC and O_SYNC.
pub data Access : Type 0 where
  rdonly wronly rdwr : Access

pub record LocalFlags : Type 0 where
  pub access : Access
  pub create : Bool
  pub excl : Bool
  pub trunc : Bool
  pub sync : Bool

-- How `ReadAt` ends: with the buffer full, at the end of the file, or with another error.
pub data ReadEnd : Type 0 where
  read_all end_of_file : ReadEnd
  read_failed : Error → ReadEnd

-- The methods of `os.Root` and of an open `os.File` that the source calls, over a state `W` of the
-- file system; `W` may keep a record of the calls.
pub record Root (W F : Type 0) : Type 0 where
  pub lstat : Bytes → Action W FileInfo
  pub stat : Bytes → Action W FileInfo
  pub open_dir : Bytes → Action W F
  pub open_file : Bytes → LocalFlags → ℕ → Action W F
  pub mkdir : Bytes → ℕ → Action W (Unit {0})
  pub remove : Bytes → Action W (Unit {0})
  pub rename : Bytes → Bytes → Action W (Unit {0})
  pub link : Bytes → Bytes → Action W (Unit {0})
  pub symlink : Bytes → Bytes → Action W (Unit {0})
  pub readlink : Bytes → Action W Bytes
  pub chmod : Bytes → ℕ → Action W (Unit {0})
  pub chtimes : Bytes → ℕ → ℕ → Action W (Unit {0})
  pub close_root : Action W (Unit {0})
  pub stat_fs : Bytes → Action W StatFs
  pub entries : F → Action W (List Bytes)
  pub entry_info : F → Bytes → Action W FileInfo
  pub stat_file : F → Action W FileInfo
  pub read_at : F → ℕ → ℕ → W → W × (Bytes × ReadEnd)
  pub write_at : F → ℕ → Bytes → W → W × (ℕ × Error)
  pub sync : F → Action W (Unit {0})
  pub truncate : F → ℕ → Action W (Unit {0})
  pub chmod_file : F → ℕ → Action W (Unit {0})
  pub close_file : F → Action W (Unit {0})

-- `Backend`: what an export offers, over a state `S` of its own. A read or a write returns its value
-- beside the error.
pub record Backend (S : Type 0) : Type 0 where
  pub lookup : Bytes → Action S Attr
  pub read_dir : Bytes → Action S (List DirEntry)
  pub open_handle : Bytes → ℕ → ℕ → Action S (ℕ × Attr)
  pub close : ℕ → Action S (Unit {0})
  pub read : ℕ → ℕ → ℕ → S → S × (Bytes × Error)
  pub write : ℕ → ℕ → Bytes → S → S × (ℕ × Error)
  pub fsync : ℕ → Action S (Unit {0})
  pub mkdir : Bytes → ℕ → Action S Attr
  pub unlink : Bytes → Action S (Unit {0})
  pub rmdir : Bytes → Action S (Unit {0})
  pub rename : Bytes → Bytes → Action S (Unit {0})
  pub link : Bytes → Bytes → Action S Attr
  pub symlink : Bytes → Bytes → Action S Attr
  pub readlink : Bytes → Action S Bytes
  pub setattr : Bytes → ℕ → SetAttr → Action S Attr
  pub stat_fs : Action S StatFs
  pub close_backend : Action S (Unit {0})
