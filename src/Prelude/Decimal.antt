-- ===== src/Prelude/Decimal.antt =====
-- strconv.Itoa on natural numbers, and why different numbers print differently.
use Prim.Native.Nat.{ℕ, zero, suc, ◌+◌, ◌-◌, ◌*◌, ◌/◌, ◌%◌, ◌^◌, ◌<◌}
use mathlib.Core.Path.{◌≡◌, refl, sym, ap, ◌∙◌}
use mathlib.Core.Bool.{Bool, true, ◌&&◌}
use mathlib.Core.Logic.{inl, inr}
use mathlib.Core.List.{[], ◌∷◌, ◌++◌}
use mathlib.Core.Option.{Option, none, some}
use native.Mathlib.Omega.{arith}
use sshx.Prelude.Tests.{ltb, leb, nat_beq, if◌then◌else◌, Bool-cases}
use sshx.Prelude.Lists.{All, All-append}
use sshx.Prelude.Text.{Bytes}

-- The fuel bounds the number of digits.
pub digits : ℕ → ℕ → Bytes
digits zero n = []
digits (suc f) n =
    let more = digits f (n / 10) ++ (b'0' + n % 10) ∷ [] in
    if ltb n 10 then (b'0' + n) ∷ [] else more

unfoldable pub itoa : ℕ → Bytes
unfolding digits
itoa n = digits (suc n) n

-- The number that a list of digits spells.
value_from : ℕ → Bytes → ℕ
value_from acc [] = acc
value_from acc (c ∷ s) = value_from (acc * 10 + (c - b'0')) s

value_from-append :
    (s t : Bytes) (acc : ℕ) → value_from acc (s ++ t) ≡ value_from (value_from acc s) t
unfolding value_from
value_from-append [] t acc = refl
value_from-append (c ∷ s) t acc = value_from-append s t (acc * 10 + (c - b'0'))

value_from-digits : (f n : ℕ) → n < f → value_from 0 (digits f n) ≡ n
unfolding digits value_from
value_from-digits zero n h = elim h [ ]
value_from-digits (suc f) n h = elim (Bool-cases (ltb n 10)) [
  | inl small ↦ rw small (omega arith)
  | inr large ↦
      rw (large, value_from-append) (omega (arith, value_from-digits f (n / 10) (ground arith)))
]

pub itoa-injective : (m n : ℕ) → itoa m ≡ itoa n → m ≡ n
unfolding itoa
itoa-injective m n e =
    sym (value_from-digits (suc m) m (omega arith))
    ∙ ap (value_from 0) e
    ∙ value_from-digits (suc n) n (omega arith)

abbrev pub IsDigit : ℕ → Type 0
IsDigit c = (leb b'0' c ≡ true) × (leb c b'9' ≡ true)

digits-IsDigit : (f n : ℕ) → All IsDigit (digits f n)
unfolding digits
digits-IsDigit zero n = tt
digits-IsDigit (suc f) n = elim (Bool-cases (ltb n 10)) [
  | inl small ↦ rw small (ground arith)
  | inr large ↦
      rw large (All-append IsDigit (digits f (n / 10)) _ (digits-IsDigit f (n / 10)) (ground arith))
]

pub itoa-IsDigit : (n : ℕ) → All IsDigit (itoa n)
unfolding itoa
itoa-IsDigit n = digits-IsDigit (suc n) n

itoa_205 : itoa 205 ≡ 50 ∷ 48 ∷ 53 ∷ []
unfolding itoa
itoa_205 = refl

all_digits : Bytes → Bool
all_digits [] = true
all_digits (c ∷ s) = leb b'0' c && leb c b'9' && all_digits s

-- strconv.Atoi on a text that is not negative: digits, with a sign or none, up to 2^63 - 1.
atoi_digits : Bytes → Option ℕ
atoi_digits [] = none
atoi_digits (c ∷ s) =
    let n = value_from 0 (c ∷ s) in if all_digits (c ∷ s) && ltb n (2 ^ 63) then some n else none

unfoldable pub atoi : Bytes → Option ℕ
unfolding atoi_digits all_digits value_from
atoi [] = none
atoi (c ∷ s) = if nat_beq c b'+' then atoi_digits s else atoi_digits (c ∷ s)
