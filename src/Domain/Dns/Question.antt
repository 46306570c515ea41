-- ===== src/Domain/Dns/Question.antt =====
-- `parseQName`: it ends, stays inside the packet, and reads back an encoded name.
use sshx.Prelude.{
  ℕ, zero, suc, ◌+◌, ◌-◌, ◌<◌, ◌≤◌, ◌≡◌, refl, sym, ap, ◌∙◌, true, false, not, none, some, List, [],
  ◌∷◌, ◌++◌, append_assoc, append-nil, length, length-append, get_elem?, take-append_length,
  drop-append_length, ltb, if◌then◌else◌, ◌==◌, nat_eq, arith, Option-cases, Bool-cases, inl, inr,
  All,
}
use sshx.Prelude.Finite.{passes, passes-lt}
use sshx.Prelude.Text.{Bytes, codes, join}
use sshx.Domain.Dns.{
  QName, name, overflow, compressed, label_overflow, unfinished, slice, is_compressed, parse_labels,
  parse_qname,
}

get_elem?-lt : (s : Bytes) (i : ℕ) {c : ℕ} → get_elem? s i ≡ some c → i < length s
get_elem?-lt [] i h = cc
get_elem?-lt (x ∷ s) zero h = omega arith
get_elem?-lt (x ∷ s) (suc i) h = omega (arith, get_elem?-lt s i h)

-- What a parse from `offset` may give: a name that ends behind `offset` and inside the packet, or one
-- of the errors of the source.
abbrev pub InPacket : Bytes → ℕ → QName → Type 0
InPacket msg offset (name n end) = (offset < end) × (end ≤ length msg)
InPacket msg offset unfinished = ⊥
InPacket msg offset _ = Unit

InPacket-le :
    (msg : Bytes) (near far : ℕ) (q : QName) → near ≤ far → InPacket msg far q → InPacket msg near q
InPacket-le msg near far (name n end) h p = omega arith
InPacket-le msg near far unfinished h p = p
InPacket-le msg near far _ h p = tt

-- One round, at a length byte that is there.
round :
    (fuel : ℕ) (msg : Bytes) (offset l : ℕ) (labels : List Bytes)
    → get_elem? msg offset ≡ some l
    → parse_labels (suc fuel) msg offset labels ≡ (
        if l == 0
        then name (join labels (codes ".")) (offset + 1)
        else if is_compressed l
        then compressed
        else if ltb (length msg) (offset + 1 + l)
        then label_overflow
        else parse_labels fuel msg
            (offset + 1 + l)
            (labels ++ slice msg (offset + 1) (offset + 1 + l) ∷ []))
unfolding parse_labels
round fuel msg offset l labels e = ground arith

round_none :
    (fuel : ℕ) (msg : Bytes) (offset : ℕ) (labels : List Bytes)
    → get_elem? msg offset ≡ none
    → parse_labels (suc fuel) msg offset labels ≡ overflow
unfolding parse_labels
round_none fuel msg offset labels e = ground arith

parse_labels-InPacket :
    (fuel : ℕ) (msg : Bytes) (offset : ℕ) (labels : List Bytes)
    → 0 < fuel
    → length msg < offset + fuel
    → InPacket msg offset (parse_labels fuel msg offset labels)
parse_labels-InPacket zero msg offset labels p h = absurd (omega arith)
parse_labels-InPacket (suc fuel) msg offset labels p h =
    elim (Option-cases (get_elem? msg offset)) [
      | inl e ↦ rw (round_none fuel msg offset labels e) tt
      | inr (l, e) ↦ rw (round fuel msg offset l labels e) (elim (Bool-cases (l == 0)) [
        | inl z ↦ rw z (omega arith, omega (arith, get_elem?-lt msg offset e))
        | inr n ↦ elim (Bool-cases (is_compressed l)) [
          | inl c ↦ rw (n, c) tt
          | inr nc ↦ elim (Bool-cases (ltb (length msg) (offset + 1 + l))) [
            | inl over ↦ rw (n, nc, over) tt
            | inr fits ↦
                rw (n, nc, fits)
                  (InPacket-le msg offset (offset + 1 + l) _ (omega arith) (
                    parse_labels-InPacket fuel msg (offset + 1 + l)
                      (labels ++ slice msg (offset + 1) (offset + 1 + l) ∷ []) (ground arith)
                      (omega arith)))
          ]
        ]
      ])
    ]

-- From any offset the loop ends, and a name that it reads ends inside the packet.
pub parse_qname-InPacket : (msg : Bytes) (offset : ℕ) → InPacket msg offset (parse_qname msg offset)
unfolding parse_qname
parse_qname-InPacket msg offset =
    parse_labels-InPacket (suc (length msg)) msg offset [] (omega arith) (omega arith)

-- A name on the wire: each label behind its length, and a zero.
abbrev pub IsLabel : Bytes → Type 0
IsLabel l = (0 < length l) × (length l < 64)

unfoldable pub encode : List Bytes → Bytes
encode [] = 0 ∷ []
encode (l ∷ ls) = length l ∷ (l ++ encode ls)

short_table : passes (λ x. not (is_compressed x)) 64 ≡ true
unfolding passes is_compressed
short_table = refl

short_not_compressed : (l : ℕ) → l < 64 → is_compressed l ≡ false
short_not_compressed l h = ground (arith, passes-lt (λ x. not (is_compressed x)) 64 l short_table h)

get_elem?-append_length : (xs ys : Bytes) (c : ℕ) → get_elem? (xs ++ c ∷ ys) (length xs) ≡ some c
get_elem?-append_length [] ys c = refl
get_elem?-append_length (x ∷ xs) ys c = get_elem?-append_length xs ys c

pub slice-append :
    (pre mid post : Bytes)
    → slice (pre ++ (mid ++ post)) (length pre) (length pre + length mid) ≡ mid
slice-append pre mid post =
    let e : length pre + length mid - length pre ≡ length mid = omega arith in
    rw (e, drop-append_length pre (mid ++ post), take-append_length mid post)

-- The rest of the loop behind one label.
behind_label :
    (fuel : ℕ) (l : Bytes) (pre rest : Bytes) (labels : List Bytes)
    → IsLabel l
    → parse_labels (suc fuel) (pre ++ (length l ∷ (l ++ rest))) (length pre) labels
      ≡ parse_labels fuel
          ((pre ++ length l ∷ l) ++ rest)
          (length (pre ++ length l ∷ l))
          (labels ++ l ∷ [])
behind_label fuel l pre rest labels h =
    let n = length l in
    let msg = pre ++ (n ∷ (l ++ rest)) in
    let e : get_elem? msg (length pre) ≡ some n = get_elem?-append_length pre (l ++ rest) n in
    let nonzero : (n == 0) ≡ false = ground (arith, h.0) in
    let short : is_compressed n ≡ false = short_not_compressed n h.1 in
    let fits : ltb (length msg) (length pre + 1 + n) ≡ false =
      ground (arith, length-append pre (n ∷ (l ++ rest)), length-append l rest) in
    let m1 : msg ≡ (pre ++ n ∷ []) ++ (l ++ rest) = sym (append_assoc pre (n ∷ []) (l ++ rest)) in
    let m2 : msg ≡ (pre ++ n ∷ l) ++ rest = sym (append_assoc pre (n ∷ l) rest) in
    let q1 : length pre + 1 ≡ length (pre ++ n ∷ []) = omega (arith, length-append pre (n ∷ [])) in
    let q2 : length pre + 1 + n ≡ length (pre ++ n ∷ l) =
      omega (arith, length-append pre (n ∷ l)) in
    let s : slice msg (length pre + 1) (length pre + 1 + n) ≡ l =
      (λ i. slice (m1 i) (q1 i) (q1 i + n)) ∙ slice-append (pre ++ n ∷ []) l rest in
    round fuel msg (length pre) n labels e
    ∙ rw (nonzero, short, fits) (λ i. parse_labels fuel (m2 i) (q2 i) (labels ++ s i ∷ []))

parse_labels-encode :
    (ls : List Bytes) (fuel : ℕ) (pre post : Bytes) (labels : List Bytes)
    → All IsLabel ls
    → length (encode ls) ≤ fuel
    → parse_labels fuel (pre ++ (encode ls ++ post)) (length pre) labels
      ≡ name (join (labels ++ ls) (codes ".")) (length pre + length (encode ls))
unfolding encode
parse_labels-encode [] zero pre post labels h f = absurd (omega arith)
parse_labels-encode [] (suc fuel) pre post labels h f =
    round fuel (pre ++ 0 ∷ post) (length pre) 0 labels (get_elem?-append_length pre post 0)
    ∙ rw append-nil
parse_labels-encode (l ∷ ls) zero pre post labels h f = absurd (omega arith)
parse_labels-encode (l ∷ ls) (suc fuel) pre post labels h f =
    let rest = encode ls ++ post in
    let pre' = pre ++ length l ∷ l in
    let long : length (encode ls) ≤ fuel = omega (arith, length-append l (encode ls)) in
    let r : length pre' + length (encode ls) ≡ length pre + length (encode (l ∷ ls)) =
      omega (arith, length-append pre (length l ∷ l), length-append l (encode ls)) in
    ap (λ t. parse_labels (suc fuel) (pre ++ (length l ∷ t)) (length pre) labels)
      (append_assoc l (encode ls) post)
    ∙ behind_label fuel l pre rest labels h.0
    ∙ parse_labels-encode ls fuel pre' post (labels ++ l ∷ []) h.1 long
    ∙ (λ i. name (join (append_assoc labels (l ∷ []) ls i) (codes ".")) (r i))

-- An encoded name, behind any bytes and in front of any bytes, is read back, with the offset of what
-- follows it: for labels of 1 to 63 bytes.
pub parse_qname-encode :
    (ls : List Bytes) (pre post : Bytes)
    → All IsLabel ls
    → parse_qname (pre ++ (encode ls ++ post)) (length pre)
      ≡ name (join ls (codes ".")) (length pre + length (encode ls))
unfolding parse_qname
parse_qname-encode ls pre post h =
    parse_labels-encode ls _ pre post [] h
      (omega (arith, length-append pre (encode ls ++ post), length-append (encode ls) post))
