-- ===== src/Sshcompat/Grammar.antt =====
-- The command lines that the program reads, as a relation: options, each a word of its own with its
-- value as the next word where it takes one, then the destination, or `--` and the destination, then
-- the remote command. Of the command lines of ssh these are the ones that do not run a flag together
-- with an option that takes a value, as `-vp 22` does.
use native.Mathlib.Nat.{zero-add, suc-add}
use sshx.Prelude.{
  ℕ, zero, suc, ◌+◌, ◌≡◌, true, false, List, [], ◌∷◌, ◌++◌, length, ◌==◌, bytes_eq, nat_eq, Bool,
  not, ◌&&◌, refl, contains, bytes_beq, arith,
}
use sshx.Prelude.Text.{Bytes, codes, contains_byte, has_prefix}
use sshx.Sshcompat.{takes_value, is_target, dashes}

-- The letters of the options of ssh that take a value.
abbrev value_letters : Bytes
value_letters = codes "BbcDEeFIiJLlmOopQRSWw"

-- A dash and one of the letters.
unfoldable is_one_of : Bytes → Bytes → Bool
unfolding contains_byte
is_one_of letters [] = false
is_one_of letters (d ∷ []) = false
is_one_of letters (d ∷ c ∷ []) = d == b'-' && contains_byte letters c
is_one_of letters (d ∷ c ∷ x ∷ s) = false

-- An option that takes a value, with no value attached.
unfoldable pub needs_value : Bytes → Bool
unfolding is_one_of
needs_value = is_one_of value_letters

-- A word that is no option: without a dash in front, or only a dash.
unfoldable pub is_word : Bytes → Bool
is_word [] = true
is_word (d ∷ []) = true
is_word (d ∷ c ∷ s) = not (d == b'-')

abbrev options_of : Bytes → List Bytes
options_of [] = []
options_of (c ∷ letters) = (b'-' ∷ c ∷ []) ∷ options_of letters

contains-options_of : (letters a : Bytes) → contains (options_of letters) a ≡ is_one_of letters a
unfolding is_one_of contains contains_byte bytes_beq
contains-options_of [] [] = refl
contains-options_of [] (d ∷ []) = refl
contains-options_of [] (d ∷ c ∷ []) = ground arith
contains-options_of [] (d ∷ c ∷ x ∷ s) = refl
contains-options_of (l ∷ letters) [] = ground (arith, contains-options_of letters [])
contains-options_of (l ∷ letters) (d ∷ []) = ground (arith, contains-options_of letters (d ∷ []))
contains-options_of (l ∷ letters) (d ∷ c ∷ []) =
    ground (arith, contains-options_of letters (d ∷ c ∷ []))
contains-options_of (l ∷ letters) (d ∷ c ∷ x ∷ s) =
    ground (arith, contains-options_of letters (d ∷ c ∷ x ∷ s))

pub takes_value_lem : (a : Bytes) → takes_value a ≡ needs_value a
unfolding takes_value needs_value
takes_value_lem a = contains-options_of value_letters a

pub is_target_lem : (a : Bytes) → is_target a ≡ is_word a
unfolding is_target is_word has_prefix bytes_beq
is_target_lem [] = refl
is_target_lem (d ∷ []) = ground arith
is_target_lem (d ∷ c ∷ s) = ground arith

pub record IsOption (arg : Bytes) : Type 0 where
  pub not_dashes : (arg == dashes) ≡ false
  pub not_target : is_target arg ≡ false

-- `Finds args i t cmd`: the destination of `args` is `t`, at index `i`, and `cmd` follows it.
pub data Finds : List Bytes → ℕ → Bytes → List Bytes → Type 0 where
  bare :
      {t : Bytes} {cmd : List Bytes}
      → (t == dashes) ≡ false
      → is_target t ≡ true
      → Finds (t ∷ cmd) zero t cmd
  dashed :
      {d t : Bytes} {cmd : List Bytes} → (d == dashes) ≡ true → Finds (d ∷ t ∷ cmd) (suc zero) t cmd
  flag :
      {a t : Bytes} {rest cmd : List Bytes} {i : ℕ}
      → IsOption a
      → takes_value a ≡ false
      → Finds rest i t cmd
      → Finds (a ∷ rest) (suc i) t cmd
  pair :
      {a v t : Bytes} {rest cmd : List Bytes} {i : ℕ}
      → IsOption a
      → takes_value a ≡ true
      → Finds rest i t cmd
      → Finds (a ∷ v ∷ rest) (suc (suc i)) t cmd

-- Complete options and nothing else.
pub data Options : List Bytes → Type 0 where
  done : Options []
  flag :
      {a : Bytes} {rest : List Bytes}
      → IsOption a
      → takes_value a ≡ false
      → Options rest
      → Options (a ∷ rest)
  pair :
      {a v : Bytes} {rest : List Bytes}
      → IsOption a
      → takes_value a ≡ true
      → Options rest
      → Options (a ∷ v ∷ rest)

pub Options-append : {xs ys : List Bytes} → Options xs → Options ys → Options (xs ++ ys)
Options-append done o = o
Options-append (flag p q r) o = flag p q (Options-append r o)
Options-append (pair p q r) o = pair p q (Options-append r o)

-- More options in front move the destination by their number.
pub Finds-Options :
    {xs args cmd : List Bytes} {i : ℕ} {t : Bytes}
    → Options xs
    → Finds args i t cmd
    → Finds (xs ++ args) (length xs + i) t cmd
Finds-Options done f = rw zero-add f
Finds-Options {i} (flag p q r) f = rw suc-add (Finds.flag p q (Finds-Options r f))
Finds-Options {i} (pair p q r) f = rw (suc-add, suc-add) (Finds.pair p q (Finds-Options r f))
