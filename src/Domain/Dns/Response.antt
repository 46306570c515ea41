-- ===== src/Domain/Dns/Response.antt =====
-- What the responder sends for a question.
use sshx.Prelude.{
  ℕ, ◌+◌, ◌*◌, ◌≡◌, refl, sym, ap, ◌∙◌, false, Option, none, some, List, [], ◌∷◌, ◌++◌,
  append_assoc, length, length-append, ltb, if◌then◌else◌, nat_eq, arith, All,
}
use sshx.Prelude.Text.{Bytes, codes, join}
use sshx.Domain.{Manager, lookup_name}
use sshx.Domain.Dns.{slice, read16, asks_address, build_dns_response, address_of, respond}
use sshx.Domain.Dns.Question.{IsLabel, encode, slice-append, parse_qname-encode}

-- A question packet: identifier, flags, number of questions, the three other counts, the name, the
-- type and the class of the question, and what stands behind it.
pub record Query : Type 0 where
  pub id_hi : ℕ
  pub id_lo : ℕ
  pub flags_hi : ℕ
  pub flags_lo : ℕ
  pub count_hi : ℕ
  pub count_lo : ℕ
  pub an_hi : ℕ
  pub an_lo : ℕ
  pub ns_hi : ℕ
  pub ns_lo : ℕ
  pub ar_hi : ℕ
  pub ar_lo : ℕ
  pub labels : List Bytes
  pub type_hi : ℕ
  pub type_lo : ℕ
  pub class_hi : ℕ
  pub class_lo : ℕ
  pub extra : Bytes

module _ (q : Query) where
  open q use {
    id_hi, id_lo, flags_hi, flags_lo, count_hi, count_lo, an_hi, an_lo, ns_hi, ns_lo, ar_hi, ar_lo,
    labels, type_hi, type_lo, class_hi, class_lo, extra,
  }

  abbrev pub header : Bytes
  header =
      id_hi ∷ id_lo ∷ flags_hi ∷ flags_lo ∷ count_hi ∷ count_lo ∷ an_hi ∷ an_lo ∷ ns_hi ∷ ns_lo
      ∷ ar_hi ∷ ar_lo ∷ []

  abbrev pub question : Bytes
  question = encode labels ++ type_hi ∷ type_lo ∷ class_hi ∷ class_lo ∷ []

  abbrev pub packet : Bytes
  packet = header ++ (encode labels ++ type_hi ∷ type_lo ∷ class_hi ∷ class_lo ∷ extra)

  abbrev pub qtype : ℕ
  qtype = type_hi * 256 + type_lo

  -- An answer of type A and class IN that points to the name of the question, valid for 30 seconds.
  abbrev pub record_of : Bytes → Bytes
  record_of ip4 = 192 ∷ 12 ∷ 0 ∷ 1 ∷ 0 ∷ 1 ∷ 0 ∷ 0 ∷ 0 ∷ 30 ∷ 0 ∷ 4 ∷ ip4

  -- The whole response: NXDOMAIN where the name has no address, and the address only for a question
  -- of type A or ANY.
  abbrev pub response : Option Bytes → Bytes
  response none = id_hi ∷ id_lo ∷ 129 ∷ 131 ∷ count_hi ∷ count_lo ∷ 0 ∷ 0 ∷ 0 ∷ 0 ∷ 0 ∷ 0 ∷ question
  response (some ip4) =
      if asks_address qtype
      then id_hi
        ∷ id_lo
        ∷ 129
        ∷ 128
        ∷ count_hi
        ∷ count_lo
        ∷ 0
        ∷ 1
        ∷ 0
        ∷ 0
        ∷ 0
        ∷ 0
        ∷ (question ++ record_of ip4)
      else id_hi ∷ id_lo ∷ 129 ∷ 128 ∷ count_hi ∷ count_lo ∷ 0 ∷ 0 ∷ 0 ∷ 0 ∷ 0 ∷ 0 ∷ question

  abbrev q_end : ℕ
  q_end = 12 + length (encode labels)

  question-slice : slice packet 12 (q_end + 4) ≡ question
  question-slice =
      let mid = question in
      let q1 : q_end + 4 ≡ 12 + length mid =
        omega
          (arith, length-append (encode labels) (type_hi ∷ type_lo ∷ class_hi ∷ class_lo ∷ [])) in
      let m1 : packet ≡ header ++ (mid ++ extra) =
        ap (λ s. header ++ s)
          (sym
            (append_assoc (encode labels) (type_hi ∷ type_lo ∷ class_hi ∷ class_lo ∷ []) extra)) in
      (λ i. slice (m1 i) 12 (q1 i)) ∙ slice-append header mid extra

  type_slice : slice packet q_end (q_end + 2) ≡ type_hi ∷ type_lo ∷ []
  type_slice =
      let pre = header ++ encode labels in
      let m1 : packet ≡ pre ++ ((type_hi ∷ type_lo ∷ []) ++ (class_hi ∷ class_lo ∷ extra)) = refl in
      let q1 : q_end ≡ length pre = omega arith in
      (λ i. slice (m1 i) (q1 i) (q1 i + 2))
      ∙ slice-append pre (type_hi ∷ type_lo ∷ []) (class_hi ∷ class_lo ∷ extra)

  packet_fits : ltb (length packet) (q_end + 4) ≡ false
  packet_fits =
      ground
        (arith, length-append (encode labels) (type_hi ∷ type_lo ∷ class_hi ∷ class_lo ∷ extra))

  build : (answer : Option Bytes) → build_dns_response packet q_end qtype answer ≡ response answer
  unfolding build_dns_response
  build none =
      ap (λ s. id_hi ∷ id_lo ∷ 129 ∷ 131 ∷ count_hi ∷ count_lo ∷ 0 ∷ 0 ∷ 0 ∷ 0 ∷ 0 ∷ 0 ∷ s)
        question-slice
  build (some ip4) = rw question-slice

  -- Every question whose name has labels of 1 to 63 bytes is answered by exactly these bytes.
  pub respond_lem :
      (m : Manager)
      → All IsLabel labels
      → respond m packet ≡ some (response (address_of (lookup_name m (join labels (codes ".")))))
  unfolding respond read16
  respond_lem m h =
      let tail = type_hi ∷ type_lo ∷ class_hi ∷ class_lo ∷ extra in
      let answer = address_of (lookup_name m (join labels (codes "."))) in
      rw (parse_qname-encode labels header tail h, respond, packet_fits, type_slice)
        (ap some (build answer))
