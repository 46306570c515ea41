-- ===== src/Forward/Control/Reaches.antt =====
-- Taking options out of a command line leaves its destination.
use sshx.Prelude.{
  ℕ, ◌≡◌, true, false, List, [], ◌∷◌, ◌==◌, nat_eq, bytes_eq, bytes_beq, arith, ◌⊎◌, inl, inr, refl,
}
use sshx.Prelude.Text.{Bytes, has_prefix}
use sshx.Sshcompat.{takes_value, is_target, dashes}
use sshx.Sshcompat.Grammar.{IsOption}

-- Command lines with destination `t`, whose option values do not begin with a dash.
pub data Reaches (t : Bytes) : List Bytes → Type 0 where
  bare : {a : Bytes} {cmd : List Bytes} → a ≡ t → Reaches t (a ∷ cmd)
  dashed : {a d : Bytes} {cmd : List Bytes} → d ≡ dashes → a ≡ t → Reaches t (d ∷ a ∷ cmd)
  flag :
      {a : Bytes} {rest : List Bytes}
      → IsOption a
      → takes_value a ≡ false
      → Reaches t rest
      → Reaches t (a ∷ rest)
  pair :
      {a v : Bytes} {rest : List Bytes}
      → IsOption a
      → takes_value a ≡ true
      → is_target v ≡ true
      → Reaches t rest
      → Reaches t (a ∷ v ∷ rest)

-- A word with no dash in front, or a lone dash, has no two-letter option in front.
pub has_prefix-is_target :
    (v : Bytes) (x : ℕ) → is_target v ≡ true → has_prefix v (b'-' ∷ x ∷ []) ≡ false
unfolding is_target has_prefix bytes_beq
has_prefix-is_target [] x h = ground arith
has_prefix-is_target (c ∷ []) x h = ground arith
has_prefix-is_target (c ∷ d ∷ s) x h = ground arith

pub ne-is_target : (v : Bytes) (x : ℕ) → is_target v ≡ true → (v == (b'-' ∷ x ∷ [])) ≡ false
unfolding is_target has_prefix bytes_beq
ne-is_target [] x h = ground arith
ne-is_target (c ∷ []) x h = ground arith
ne-is_target (c ∷ d ∷ s) x h = ground arith

-- What a pass over a command line may do: leave words and dashes, and drop an option whole.
pub record Strips (f : List Bytes → List Bytes) : Type 0 where
  pub word : (v : Bytes) (rest : List Bytes) → is_target v ≡ true → f (v ∷ rest) ≡ v ∷ f rest
  pub dashes_kept : (rest : List Bytes) → f (dashes ∷ rest) ≡ dashes ∷ f rest
  pub flag_whole :
      (a r : Bytes) (rest : List Bytes)
      → takes_value a ≡ false
      → (f (a ∷ r ∷ rest) ≡ f (r ∷ rest)) ⊎ (f (a ∷ r ∷ rest) ≡ a ∷ f (r ∷ rest))
  pub pair_whole :
      (a v : Bytes) (rest : List Bytes)
      → takes_value a ≡ true
      → is_target v ≡ true
      → (f (a ∷ v ∷ rest) ≡ f rest) ⊎ (f (a ∷ v ∷ rest) ≡ a ∷ v ∷ f rest)

pub Reaches-nil : {t : Bytes} → ¬ (Reaches t [])
Reaches-nil r = elim r [ ]

pub Reaches-Strips :
    {f : List Bytes → List Bytes} {t : Bytes} {args : List Bytes}
    → Strips f
    → is_target t ≡ true
    → Reaches t args
    → Reaches t (f args)
Reaches-Strips s h (bare {a} {cmd} e) = rw (s.word a cmd (rw e h)) (bare e)
Reaches-Strips s h (dashed {a} {d} {cmd} p e) =
    rw (p, s.dashes_kept (a ∷ cmd), s.word a cmd (rw e h)) (dashed refl e)
Reaches-Strips s h (flag {rest = []} o n r) = absurd (Reaches-nil r)
Reaches-Strips s h (flag {a} {rest = b ∷ rest} o n r) = elim (s.flag_whole a b rest n) [
  | inl e ↦ rw e (Reaches-Strips s h r)
  | inr e ↦ rw e (flag o n (Reaches-Strips s h r))
]
Reaches-Strips s h (pair {a} {v} {rest} o y w r) = elim (s.pair_whole a v rest y w) [
  | inl e ↦ rw e (Reaches-Strips s h r)
  | inr e ↦ rw e (pair o y w (Reaches-Strips s h r))
]
