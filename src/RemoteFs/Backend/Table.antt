-- ===== src/RemoteFs/Backend/Table.antt =====
-- The table of open files: a handle that is given out is new, is bound to its file, and no other
-- handle changes.
use sshx.Prelude.{
  ℕ, ◌+◌, ◌<◌, ◌≤◌, ◌%◌, ◌^◌, ◌≡◌, ◌≢◌, refl, Bool, List, not, Option, none, some, ◌==◌, nat_eq,
  eq_iff, eq_refl, arith, if◌then◌else◌,
}
use sshx.Prelude.Text.{Bytes}
use sshx.Prelude.Map.{lookup, insert, lookup-insert}
use sshx.RemoteFs.{Error, errno, eperm}
use sshx.RemoteFs.Effect.{Result, ok, err, Action, ◌>>=◌, done, fail, finally}
use sshx.RemoteFs.Effect.Triple.{
  Triple, Ends, Any, After-any, bind-Ends, if-Ends, on_failure-Triple,
}
use sshx.RemoteFs.Os.{Root, Attr, FileInfo, is_regular, file_info_to_attr}
use sshx.RemoteFs.Paths.{backend_clean_path}
use sshx.RemoteFs.Backend.{
  open_root_backend, RootBackend, State, on_root, cleaned, add_handle, close_file, open_handle,
  local_open_flags,
}

-- Every handle is above 0 and at most the counter.
unfoldable pub IsCounted : {F : Type 0} → RootBackend F → Type 0
IsCounted {F = F} b =
    (handle : ℕ) (f : F) → lookup handle b.handles ≡ some f → (0 < handle) × (handle ≤ b.next)

-- `handle` was free in `b`, and in `b'` it is bound; no other handle has changed.
abbrev pub Binds : {F : Type 0} → RootBackend F → ℕ → RootBackend F → Type 0
Binds {F = F} b handle b' =
    (lookup handle b.handles ≡ none)
    × (0 < handle)
    × ((f : F) × (lookup handle b'.handles ≡ some f))
    × ((j : ℕ) → j ≢ handle → lookup j b'.handles ≡ lookup j b.handles)
    × IsCounted b'

-- What `Open` does to the table `b`: nothing, when it fails.
abbrev pub Opened : {W F : Type 0} → RootBackend F → State W F → Result (ℕ × Attr) → Type 0
Opened b (b', w) (ok (handle, attr)) = Binds b handle b'
Opened b (b', w) (err e) = b' ≡ b

unbound :
    {F : Type 0} (b : RootBackend F)
    → IsCounted b
    → (handle : ℕ) (o : Option F) → b.next < handle
    → lookup handle b.handles ≡ o
    → o ≡ none
unfolding IsCounted
unbound b c handle none l e = refl
unbound b c handle (some f) l e = ground (arith, c handle f e)

new_table : {F : Type 0} → RootBackend F → F → RootBackend F
new_table b f = record b { next = b.next + 1; handles = insert (b.next + 1) f b.handles }

new_table-lookup :
    {F : Type 0} (b : RootBackend F) (f : F) (j : ℕ)
    → lookup j (new_table b f).handles ≡ (if b.next + 1 == j then some f else lookup j b.handles)
unfolding new_table
new_table-lookup b f j = lookup-insert (b.next + 1) j f b.handles

new_table-IsCounted :
    {F : Type 0} (b : RootBackend F) (f : F) → IsCounted b → IsCounted (new_table b f)
unfolding IsCounted
new_table-IsCounted b f c handle g e =
    let counter : (new_table b f).next ≡ b.next + 1 = unfold new_table in refl in
    ground (arith, c handle g, new_table-lookup b f handle, eq_iff (b.next + 1) handle, counter)

new_table-Binds :
    {F : Type 0} (b : RootBackend F) (f : F) → IsCounted b → Binds b (b.next + 1) (new_table b f)
new_table-Binds b f c = (
  unbound b c (b.next + 1) (lookup (b.next + 1) b.handles) (omega arith) refl,
  omega arith,
  (f, ground (arith, new_table-lookup b f (b.next + 1), eq_refl (b.next + 1))),
  (λ j n. ground (arith, new_table-lookup b f j, eq_iff (b.next + 1) j)),
  new_table-IsCounted b f c,
)

module _ {W F : Type 0} (os : Root W F) (b : RootBackend F) where
  -- The table is still `b`.
  IsTable : State W F → Type 0
  IsTable s = s.0 ≡ b

  is_table : (w : W) → IsTable (b, w)
  unfolding IsTable
  is_table w = refl

  call : {A : Type 0} (m : Action W A) → Triple IsTable (on_root m) Any
  unfolding on_root IsTable
  call m = record { holds = λ (b', w) e. (e, After-any (m w).1) }

  unchanged : (s : State W F) (e : Error) → IsTable s → Opened b s (err e)
  unfolding IsTable
  unchanged s e t = t

  then_open :
      {A : Type 0} {m : Action (State W F) A} {f : A → Action (State W F) (ℕ × Attr)}
      → Triple IsTable m Any
      → ((a : A) → Ends IsTable (f a) (Opened b))
      → Ends IsTable (m >>= f) (Opened b)
  then_open hm hf = bind-Ends IsTable Any (Opened b) unchanged hm (λ a _. hf a)

  cleaned_keeps : (path : Bytes) → Triple IsTable (cleaned path) Any
  unfolding cleaned
  cleaned_keeps path = record {
    holds = λ (b', w) e. (e, After-any (backend_clean_path b'.excluded path));
  }

  flags_keep : (flags : ℕ) → Triple IsTable (λ s. (s, local_open_flags flags)) Any
  flags_keep flags = record { holds = λ s e. (e, After-any (local_open_flags flags)) }

  not_regular : (f : F) → Ends IsTable (finally (fail (errno eperm)) (close_file os f)) (Opened b)
  unfolding finally on_root IsTable
  not_regular f = record { ends = λ (b', w) e. e }

  add_handle-Opened :
      (f : F) (info : FileInfo)
      → IsCounted b
      → b.next + 1 < 2 ^ 64
      → Ends IsTable (do id ← add_handle f; done (id, file_info_to_attr info)) (Opened b)
  unfolding ◌>>=◌ add_handle IsTable new_table
  add_handle-Opened f info c l = record {
    ends = λ (b', w) e.
        let in_range : (b.next + 1) % 18446744073709551616 ≡ b.next + 1 = omega arith in
        rw (e, in_range) (new_table-Binds b f c);
  }

  -- `Open` gives a handle that was free, is not 0, and is now bound; the other handles stay as they
  -- are, and a failed `Open` leaves the table as it was. The counter must not be at the end of 64 bits.
  pub open_handle-Opened :
      (path : Bytes) (flags mode : ℕ) (w : W)
      → IsCounted b
      → b.next + 1 < 2 ^ 64
      → Opened b (open_handle os path flags mode (b, w)).0 (open_handle os path flags mode (b, w)).1
  unfolding open_handle
  open_handle-Opened path flags mode w c l =
      (then_open (cleaned_keeps path) (λ n. then_open (flags_keep flags) (λ local_flags.
          then_open (call (os.open_file n local_flags (mode % 512))) (λ f.
            then_open
              (on_failure-Triple IsTable Any (call (os.stat_file f)) (call (os.close_file f)))
              (λ info.
                if-Ends IsTable (Opened b) (not (is_regular info.mode)) (λ _. not_regular f)
                  (λ _. add_handle-Opened f info c l)))))).ends
        (b, w) (is_table w)

-- A backend that has just been opened has no handles.
pub open_root_backend-IsCounted :
    (F : Type 0) (root_path : Bytes) (disable_delete : Bool) (excluded : List Bytes)
    → IsCounted {F = F} (open_root_backend root_path disable_delete excluded)
unfolding IsCounted open_root_backend lookup
open_root_backend-IsCounted F root_path disable_delete excluded handle f e = ground arith
