-- ===== src/Domain/Dns.antt =====
-- internal/domain/domain.go: reading a DNS question and writing the response.
-- A packet is a list of bytes. A slice of Go that is out of range would panic; here it is shorter,
-- and Response.antt shows that no slice of a response is.
pub mod Question
pub mod Response
use sshx.Prelude.{
  ℕ, zero, suc, ◌+◌, ◌-◌, ◌*◌, ◌/◌, ◌%◌, ◌^◌, Bool, true, false, not, ◌&&◌, ◌||◌, Option, none,
  some, List, [], ◌∷◌, ◌++◌, length, take, drop, get_elem?, ltb, leb, if◌then◌else◌, ◌==◌, nat_eq,
}
use Prim.Native.Nat.{bit_and}
use sshx.Prelude.Text.{Bytes, codes, join}
use sshx.Domain.{Manager, lookup_name, to4}

pub data QName : Type 0 where
  name : Bytes → ℕ → QName
  overflow compressed label_overflow : QName
  -- the fuel is used up; never for the fuel of `parse_qname`, see Question.antt
  unfinished : QName

abbrev pub slice : Bytes → ℕ → ℕ → Bytes
slice s from to = take (to - from) (drop from s)

-- `l&0xc0 != 0`
unfoldable pub is_compressed : ℕ → Bool
is_compressed l = not (bit_and l 0xc0 == 0)

-- The loop of `parseQName`. Each round reads a length, and the label behind it.
unfoldable pub parse_labels : ℕ → Bytes → ℕ → List Bytes → QName
parse_labels zero msg offset labels = unfinished
parse_labels (suc fuel) msg offset labels = elim (get_elem? msg offset) [
  | none ↦ overflow
  | some l ↦
      if l == 0
      then name (join labels (codes ".")) (offset + 1)
      else if is_compressed l
      then compressed
      else if ltb (length msg) (offset + 1 + l)
      then label_overflow
      else parse_labels fuel msg (offset + 1 + l)
          (labels ++ slice msg (offset + 1) (offset + 1 + l) ∷ [])
]

unfoldable pub parse_qname : Bytes → ℕ → QName
parse_qname msg offset = parse_labels (suc (length msg)) msg offset []

-- Numbers of 16 and 32 bits, the high byte first.
abbrev pub be16 : ℕ → Bytes
be16 n = n / 256 % 256 ∷ n % 256 ∷ []

abbrev pub be32 : ℕ → Bytes
be32 n = n / 16777216 % 256 ∷ n / 65536 % 256 ∷ n / 256 % 256 ∷ n % 256 ∷ []

unfoldable pub read16 : Bytes → ℕ
read16 [] = 0
read16 (a ∷ []) = 0
read16 (a ∷ b ∷ s) = a * 256 + b

abbrev pub asks_address : ℕ → Bool
asks_address qtype = qtype == 1 || qtype == 255

-- `buildDNSResponse`; the address is nothing where the lookup found none, or no IPv4 address.
unfoldable pub build_dns_response : Bytes → ℕ → ℕ → Option Bytes → Bytes
build_dns_response req q_end qtype answer =
    let head = slice req 0 2 in
    let counts = slice req 4 6 in
    let question = slice req 12 (q_end + 4) in
    elim answer [
      | none ↦ head ++ (be16 0x8183 ++ (counts ++ (be16 0 ++ (be16 0 ++ (be16 0 ++ question)))))
      | some ip4 ↦
          if asks_address qtype
          then head
            ++ (be16 0x8180
                ++ (counts
                    ++ (be16 1
                        ++ (be16 0
                            ++ (be16 0
                                ++ (question
                                    ++ (0xc0 ∷ 0x0c ∷ be16 1
                                        ++ (be16 1 ++ (be32 30 ++ (be16 4 ++ ip4))))))))))
          else head ++ (be16 0x8180 ++ (counts ++ (be16 0 ++ (be16 0 ++ (be16 0 ++ question)))))
    ]

abbrev pub address_of : Option Bytes → Option Bytes
address_of none = none
address_of (some ip) = to4 ip

-- One round of `serveDNS`: the response to a packet, or none.
unfoldable pub respond : Manager → Bytes → Option Bytes
respond m packet = elim (parse_qname packet 12) [
  | name qname q_end ↦
      if ltb (length packet) (q_end + 4)
      then none
      else some (
          build_dns_response packet q_end (read16 (slice packet q_end (q_end + 2)))
            (address_of (lookup_name m qname)))
  | overflow ↦ none
  | compressed ↦ none
  | label_overflow ↦ none
  | unfinished ↦ none
]
