-- ===== src/Bridge/Mounts/Names.antt =====
-- The session ids that the server takes.
use sshx.Prelude.{
  ℕ, ◌≡◌, ◌↔◌, refl, true, false, [], ◌∷◌, is_empty, ◌==◌, bytes_eq, nat_eq, eq_refl, bytes_beq,
  arith,
}
use sshx.Prelude.Text.{Bytes, codes, contains_byte}
use sshx.RemoteFs.Layout.Below.{IsName}
use sshx.Bridge.Mounts.{strip_slashes, after_last_slash, path_base, safe_session_id}

later_none : (c : ℕ) (s : Bytes) → contains_byte (c ∷ s) b'/' ≡ false → contains_byte s b'/' ≡ false
unfolding contains_byte
later_none c s h = ground arith

strip_slashes-none : (s : Bytes) → contains_byte s b'/' ≡ false → strip_slashes s ≡ s
unfolding strip_slashes contains_byte
strip_slashes-none [] h = refl
strip_slashes-none (c ∷ []) h = ground arith
strip_slashes-none (c ∷ d ∷ t) h = rw (strip_slashes-none (d ∷ t) (later_none c (d ∷ t) h))

after_last_slash-none : (s : Bytes) → contains_byte s b'/' ≡ false → after_last_slash s ≡ s
unfolding after_last_slash contains_byte
after_last_slash-none [] h = refl
after_last_slash-none (c ∷ s) h = ground arith

path_base-none : (s : Bytes) → is_empty s ≡ false → contains_byte s b'/' ≡ false → path_base s ≡ s
unfolding path_base
path_base-none [] e h = cc
path_base-none (c ∷ s) e h = rw (strip_slashes-none (c ∷ s) h, after_last_slash-none (c ∷ s) h)

base_same :
    (s : Bytes) → is_empty s ≡ false → contains_byte s b'/' ≡ false → (path_base s == s) ≡ true
base_same s e h = rw (path_base-none s e h) (eq_refl s)

empty_beq : (s : Bytes) → (s == codes "") ≡ is_empty s
unfolding bytes_beq
empty_beq [] = refl
empty_beq (c ∷ s) = refl

-- A session id is safe if and only if it is a name and has no backslash; the test of `filepath.Base`
-- says nothing more.
safe_session_id_iff :
    (id : Bytes) → (safe_session_id id ≡ true) ↔ (IsName id × (contains_byte id b'\\' ≡ false))
unfolding safe_session_id
safe_session_id_iff id = ground (arith, empty_beq id, base_same id)
