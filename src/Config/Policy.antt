-- ===== src/Config/Policy.antt =====
-- What the deny list denies, and the host of a target.
use sshx.Prelude.{
  ℕ, ◌≡◌, refl, Bool, true, false, not, ◌||◌, List, [], ◌∷◌, ◌++◌, is_empty, ◌==◌, nat_eq, bytes_eq,
  eq_iff, eq_refl, contains, arith,
}
use sshx.Prelude.Text.{Bytes, has_prefix, contains_byte, trim_right}
use sshx.Config.{
  after_last, before_last, base, is_denied, allows, without_port, normalize_target_host,
}

is_slash : ℕ → Bool
is_slash c = c == b'/'

contains-seam : (s rest : Bytes) (b : ℕ) → contains_byte (s ++ b ∷ rest) b ≡ true
unfolding contains_byte
contains-seam [] rest b = ground (arith, eq_refl b)
contains-seam (c ∷ s) rest b = ground (arith, contains-seam s rest b)

after_last-append :
    (b : ℕ) (s rest : Bytes) → contains_byte rest b ≡ false → after_last b (s ++ b ∷ rest) ≡ rest
unfolding after_last contains_byte
after_last-append b [] rest h = ground (arith, eq_refl b)
after_last-append b (c ∷ s) rest h =
    ground (arith, after_last-append b s rest h, contains-seam s rest b)

after_last-none : (b : ℕ) (s : Bytes) → contains_byte s b ≡ false → after_last b s ≡ s
unfolding after_last
after_last-none b [] h = refl
after_last-none b (c ∷ s) h = ground arith

before_last-append :
    (b : ℕ) (s rest : Bytes) → contains_byte rest b ≡ false → before_last b (s ++ b ∷ rest) ≡ s
unfolding before_last contains_byte
before_last-append b [] rest h = ground arith
before_last-append b (c ∷ s) rest h =
    ground (arith, before_last-append b s rest h, contains-seam s rest b)

before_last-none : (b : ℕ) (s : Bytes) → contains_byte s b ≡ false → before_last b s ≡ []
unfolding before_last contains_byte
before_last-none b [] h = refl
before_last-none b (c ∷ s) h = ground arith

trim_right-whole :
    (p : ℕ → Bool) (s : Bytes) (b : ℕ)
    → contains_byte s b ≡ false
    → ((c : ℕ) → p c ≡ true → c ≡ b)
    → trim_right p s ≡ s
unfolding trim_right contains_byte
trim_right-whole p [] b h only = refl
trim_right-whole p (c ∷ []) b h only = ground (arith, only c, eq_iff c b)
trim_right-whole p (c ∷ d ∷ s) b h only = ground (arith, trim_right-whole p (d ∷ s) b)

trim_right-append :
    (p : ℕ → Bool) (dir : Bytes) (c : ℕ) (s : Bytes)
    → trim_right p (c ∷ s) ≡ c ∷ s
    → trim_right p (dir ++ c ∷ s) ≡ dir ++ c ∷ s
unfolding trim_right
trim_right-append p [] c s h = h
trim_right-append p (d ∷ []) c s h = ground arith
trim_right-append p (d ∷ e ∷ dir) c s h = ground (arith, trim_right-append p (e ∷ dir) c s h)

slash_only : (c : ℕ) → is_slash c ≡ true → c ≡ b'/'
unfolding is_slash
slash_only c h = ground arith

append_nonempty : (dir : Bytes) (c : ℕ) (s : Bytes) → is_empty (dir ++ c ∷ s) ≡ false
append_nonempty [] c s = refl
append_nonempty (d ∷ dir) c s = refl

trim_slash-path :
    (dir : Bytes) (c : ℕ) (s : Bytes)
    → contains_byte (c ∷ s) b'/' ≡ false
    → trim_right (λ d. d == b'/') (dir ++ b'/' ∷ c ∷ s) ≡ dir ++ b'/' ∷ c ∷ s
unfolding is_slash
trim_slash-path dir c s h = trim_right-append is_slash dir b'/' (c ∷ s) (
    trim_right-append is_slash (b'/' ∷ []) c s
      (trim_right-whole is_slash (c ∷ s) b'/' h slash_only))

base-path :
    (dir : Bytes) (c : ℕ) (s : Bytes)
    → contains_byte (c ∷ s) b'/' ≡ false
    → base (dir ++ b'/' ∷ c ∷ s) ≡ c ∷ s
unfolding base
base-path dir c s h = ground (
  arith,
  append_nonempty dir b'/' (c ∷ s),
  trim_slash-path dir c s h,
  after_last-append b'/' dir (c ∷ s) h,
)

base-bare : (c : ℕ) (s : Bytes) → contains_byte (c ∷ s) b'/' ≡ false → base (c ∷ s) ≡ c ∷ s
unfolding base is_slash
base-bare c s h =
    ground
      (arith, trim_right-whole is_slash (c ∷ s) b'/' h slash_only, after_last-none b'/' (c ∷ s) h)

is_denied-contains :
    (deny : List Bytes) (cmd arg : Bytes)
    → is_denied deny cmd arg ≡ (contains deny cmd || contains deny arg)
unfolding is_denied contains
is_denied-contains [] cmd arg = refl
is_denied-contains (d ∷ deny) cmd arg = ground (arith, is_denied-contains deny cmd arg)

-- A command given by its bare name is denied exactly when the name is on the list, and one given by
-- a path when its name or the path is, whatever the arguments.
pub allows_iff :
    (deny : List Bytes) (dir : Bytes) (c : ℕ) (name : Bytes) (argv : List Bytes)
    → contains_byte (c ∷ name) b'/' ≡ false
    → (allows deny ((c ∷ name) ∷ argv) ≡ not (contains deny (c ∷ name)))
      × (allows deny ((dir ++ b'/' ∷ c ∷ name) ∷ argv)
          ≡ not (contains deny (c ∷ name) || contains deny (dir ++ b'/' ∷ c ∷ name)))
unfolding allows
allows_iff deny dir c name argv h =
    let path = dir ++ b'/' ∷ c ∷ name in
    (
      ground (arith, base-bare c name h, is_denied-contains deny (c ∷ name) (c ∷ name)),
      ground (arith, base-path dir c name h, is_denied-contains deny (c ∷ name) path),
    )

without_port-host :
    (c : ℕ) (host port : Bytes)
    → (c == b'[') ≡ false
    → contains_byte (c ∷ host) b':' ≡ false
    → contains_byte port b':' ≡ false
    → (without_port (c ∷ host) ≡ c ∷ host) × (without_port ((c ∷ host) ++ b':' ∷ port) ≡ c ∷ host)
unfolding without_port has_prefix contains_byte
without_port-host c host port bracket h p = (
  ground (arith, before_last-none b':' (c ∷ host) h),
  ground (arith, before_last-append b':' (c ∷ host) port p),
)

-- The host of a target is the same with and without a user name, and with and without a port: for a
-- host without `@` and colon that does not begin with a bracket.
pub normalize_target_host_lem :
    (user port : Bytes) (c : ℕ) (host : Bytes)
    → (c == b'[') ≡ false
    → contains_byte (c ∷ host) b':' ≡ false
    → contains_byte port b':' ≡ false
    → contains_byte (c ∷ host) b'@' ≡ false
    → contains_byte ((c ∷ host) ++ b':' ∷ port) b'@' ≡ false
    → (normalize_target_host (c ∷ host) ≡ c ∷ host)
      × (normalize_target_host (user ++ b'@' ∷ c ∷ host) ≡ c ∷ host)
      × (normalize_target_host ((c ∷ host) ++ b':' ∷ port) ≡ c ∷ host)
      × (normalize_target_host (user ++ b'@' ∷ ((c ∷ host) ++ b':' ∷ port)) ≡ c ∷ host)
unfolding normalize_target_host
normalize_target_host_lem user port c host bracket h p at at_port =
    let (bare, ported) = without_port-host c host port bracket h p in
    (
      rw (after_last-none b'@' (c ∷ host) at) bare,
      rw (after_last-append b'@' user (c ∷ host) at) bare,
      rw (after_last-none b'@' ((c ∷ host) ++ b':' ∷ port) at_port) ported,
      rw (after_last-append b'@' user ((c ∷ host) ++ b':' ∷ port) at_port) ported,
    )
