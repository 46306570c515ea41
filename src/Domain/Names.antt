-- ===== src/Domain/Names.antt =====
-- The names of targets: what a prefix is made of, and why different rounds give different keys.
use mathlib.Core.List.{append_cancel_left, append_cancel_right}
use sshx.Prelude.{
  ℕ, zero, suc, ◌≡◌, ◌≢◌, refl, sym, ap, ◌∙◌, Bool, true, false, ◌||◌, [], ◌∷◌, ◌++◌, length,
  length-append, is_empty, if◌then◌else◌, ◌==◌, nat_eq, All, All-append, arith,
}
use sshx.Prelude.Text.{
  Bytes, codes, to_lower, to_lower_byte, trim, trim_left, trim_right, trim_space, is_space,
}
use sshx.Prelude.Decimal.{itoa, itoa-injective, itoa-IsDigit, IsDigit}
use sshx.Domain.{
  Manager, is_dot, is_dash, normalize_suffix, is_alnum, dash_runs, target_prefix, candidate,
  candidate_name,
}

-- What a prefix may hold.
abbrev pub IsLabelByte : ℕ → Type 0
IsLabelByte c = (is_alnum c || c == b'-') ≡ true

module _ (drops : ℕ → Bool) (P : ℕ → Type 0) where
  trim_left-All : (s : Bytes) → All P s → All P (trim_left drops s)
  unfolding trim_left
  trim_left-All [] h = tt
  trim_left-All (c ∷ s) h = ground (arith, trim_left-All s h.1)

  trim_right-All : (s : Bytes) → All P s → All P (trim_right drops s)
  unfolding trim_right
  trim_right-All [] h = tt
  trim_right-All (c ∷ s) h = ground (arith, trim_right-All s h.1)

dash_runs-IsLabelByte : (prev : Bool) (s : Bytes) → All IsLabelByte (dash_runs prev s)
unfolding dash_runs
dash_runs-IsLabelByte prev [] = tt
dash_runs-IsLabelByte prev (c ∷ s) =
    ground (arith, dash_runs-IsLabelByte false s, dash_runs-IsLabelByte true s)

non_empty :
    (p : Bytes)
    → All IsLabelByte p
    → All IsLabelByte (if is_empty p then codes "host" else p)
      × ((if is_empty p then codes "host" else p) ≢ [])
unfolding is_alnum
non_empty [] h = ((refl, (refl, (refl, (refl, tt)))), λ e. cc)
non_empty (c ∷ p) h = (h, λ e. cc)

-- A prefix is not empty and holds lower-case letters, digits and dashes only.
pub target_prefix-IsLabelByte :
    (target : Bytes) → All IsLabelByte (target_prefix target) × (target_prefix target ≢ [])
unfolding target_prefix
target_prefix-IsLabelByte target =
    let runs = dash_runs false (to_lower (trim is_dot (trim_space target))) in
    let labels : All IsLabelByte (trim is_dash runs) =
      unfold trim in
      trim_right-All is_dash IsLabelByte (trim_left is_dash runs) (
        trim_left-All is_dash IsLabelByte runs
          (dash_runs-IsLabelByte false (to_lower (trim is_dot (trim_space target))))) in
    non_empty (trim is_dash runs) labels

-- Text that nothing is trimmed from, in front of any text.
module _ (drops : ℕ → Bool) where
  trim_right-append :
      (xs t : Bytes)
      → All (λ c. drops c ≡ false) xs
      → trim_right drops (xs ++ t) ≡ xs ++ trim_right drops t
  unfolding trim_right
  trim_right-append [] t h = refl
  trim_right-append (c ∷ xs) t h = ground (arith, trim_right-append xs t h.1)

  trim-append :
      (xs t : Bytes)
      → All (λ c. drops c ≡ false) xs
      → xs ≢ []
      → trim drops (xs ++ t) ≡ xs ++ trim_right drops t
  unfolding trim
  trim-append [] t h n = absurd (n refl)
  trim-append (c ∷ xs) t h n = rw left (trim_right-append (c ∷ xs) t h)
    where
      left : trim_left drops (c ∷ (xs ++ t)) ≡ c ∷ (xs ++ t)
      left = unfold trim_left in ground arith

to_lower-append : (xs t : Bytes) → to_lower (xs ++ t) ≡ to_lower xs ++ to_lower t
unfolding to_lower
to_lower-append [] t = refl
to_lower-append (c ∷ xs) t = ap (◌∷◌ (to_lower_byte c)) (to_lower-append xs t)

to_lower-IsLabelByte : (xs : Bytes) → All IsLabelByte xs → to_lower xs ≡ xs
unfolding to_lower is_alnum
to_lower-IsLabelByte [] h = refl
to_lower-IsLabelByte (c ∷ xs) h = ground (arith, to_lower-IsLabelByte xs h.1)

not_space : (xs : Bytes) → All IsLabelByte xs → All (λ c. is_space c ≡ false) xs
unfolding is_space is_alnum
not_space [] h = tt
not_space (c ∷ xs) h = (ground arith, not_space xs h.1)

not_dot : (xs : Bytes) → All IsLabelByte xs → All (λ c. is_dot c ≡ false) xs
unfolding is_alnum
not_dot [] h = tt
not_dot (c ∷ xs) h = (ground arith, not_dot xs h.1)

-- The key of a name that begins with a label.
pub normalize_suffix-append :
    (xs t : Bytes)
    → All IsLabelByte xs
    → xs ≢ []
    → normalize_suffix (xs ++ t) ≡ xs ++ to_lower (trim_right is_dot (trim_right is_space t))
unfolding normalize_suffix
normalize_suffix-append xs t h n = rw (
  trim-append is_space xs t (not_space xs h) n,
  trim-append is_dot xs (trim_right is_space t) (not_dot xs h) n,
  to_lower-append xs,
  to_lower-IsLabelByte xs h,
)

nil_of_append : (p s : Bytes) → p ++ s ≡ [] → p ≡ []
nil_of_append [] s e = refl
nil_of_append (c ∷ p) s e = cc

longer : (p s : Bytes) → ¬ (p ≡ p ++ (b'-' ∷ s))
longer p s e = absurd (omega (arith, ap length e, length-append p (b'-' ∷ s)))

tail_eq : {c d : ℕ} {s t : Bytes} → ◌≡◌ {A = Bytes} (c ∷ s) (d ∷ t) → s ≡ t
tail_eq e = cc

digit-IsLabelByte : (s : Bytes) → All IsDigit s → All IsLabelByte s
unfolding is_alnum
digit-IsLabelByte [] h = tt
digit-IsLabelByte (c ∷ s) h = (ground arith, digit-IsLabelByte s h.1)

module _ (p : Bytes) (labels : All IsLabelByte p) (given : p ≢ []) where
  candidate-IsLabelByte : (n : ℕ) → All IsLabelByte (candidate p n)
  unfolding candidate
  candidate-IsLabelByte zero = labels
  candidate-IsLabelByte (suc n) =
      All-append IsLabelByte p (b'-' ∷ itoa (suc n)) labels
        (dash, digit-IsLabelByte (itoa (suc n)) (itoa-IsDigit (suc n)))
    where
      dash : IsLabelByte b'-'
      dash = unfold is_alnum in refl

  candidate-ne-nil : (n : ℕ) → candidate p n ≢ []
  unfolding candidate
  candidate-ne-nil zero e = given e
  candidate-ne-nil (suc n) e = given (nil_of_append p _ e)

  candidate-injective : (i j : ℕ) → candidate p i ≡ candidate p j → i ≡ j
  unfolding candidate
  candidate-injective zero zero e = refl
  candidate-injective zero (suc j) e = absurd (longer p _ e)
  candidate-injective (suc i) zero e = absurd (longer p _ (sym e))
  candidate-injective (suc i) (suc j) e =
      itoa-injective (suc i) (suc j) (tail_eq (append_cancel_left p _ _ e))

  -- Rounds of the search try different keys.
  pub key-injective :
      (m : Manager) (i j : ℕ)
      → normalize_suffix (candidate_name m p i) ≡ normalize_suffix (candidate_name m p j)
      → i ≡ j
  unfolding candidate_name
  key-injective m i j e = candidate-injective i j (
      append_cancel_right (candidate p i) (candidate p j) _ (
        sym (
          normalize_suffix-append (candidate p i) (b'.' ∷ m.suffix) (candidate-IsLabelByte i)
            (candidate-ne-nil i))
        ∙ e
        ∙ normalize_suffix-append (candidate p j) (b'.' ∷ m.suffix) (candidate-IsLabelByte j)
            (candidate-ne-nil j)))
