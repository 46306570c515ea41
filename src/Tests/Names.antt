-- ===== src/Tests/Names.antt =====
-- Domain names and the DNS responder.
use sshx.Prelude.{
  ℕ, ◌+◌, ◌≡◌, ◌≢◌, ◌<◌, ◌≤◌, refl, Bool, true, false, Option, none, some, List, [], ◌∷◌, ◌++◌,
  length, ◌==◌, nat_eq, bytes_eq, All, if◌then◌else◌, arith,
}
use sshx.Prelude.Text.{Bytes, codes, join}
use sshx.Domain
use sshx.Domain.Register.{Registers, register_target_total}
use sshx.Domain.Dns.{QName, parse_qname, respond, address_of}
use sshx.Domain.Dns.Question.{IsLabel, encode, parse_qname-encode}
use sshx.Domain.Dns.Response.{Query, packet, response, respond_lem}

abbrev ip4 : Bytes
ip4 = 127 ∷ 64 ∷ 0 ∷ 1 ∷ []

abbrev one_name : Domain.Manager
one_name = record { suffix = codes "sshx"; records = (codes "box.sshx", ip4) ∷ [] }

four : Domain.to4 ip4 ≡ some ip4
unfolding Domain.to4
four = refl

register_target_total_example :
    (name : Bytes) × (m' : Domain.Manager) × (Domain.register_target one_name (codes "Box") ip4
      ≡ Domain.ok (some (name, m')))
    × Registers one_name (codes "Box") ip4 name m'
register_target_total_example = register_target_total one_name (codes "Box") ip4 ip4 four

abbrev two_names : Domain.Manager
two_names = record {
  suffix = codes "sshx";
  records = (codes "box-1.sshx", ip4) ∷ (codes "box.sshx", ip4) ∷ [];
}

registered :
    Domain.register_target one_name (codes "Box") ip4
    ≡ Domain.ok (some (codes "box-1.sshx", two_names))
unfolding Domain.register_target Domain.to4 Domain.free_suffix sshx.Prelude.Map.lookup
    sshx.Prelude.bytes_beq Domain.normalize_suffix sshx.Prelude.Text.to_lower sshx.Prelude.Text.trim
    Domain.candidate_name Domain.candidate Domain.target_prefix Domain.dash_runs
    sshx.Prelude.Text.is_space Domain.is_alnum sshx.Prelude.Decimal.itoa sshx.Prelude.Map.insert
registered = refl

abbrev labels : List Bytes
labels = codes "box" ∷ codes "sshx" ∷ []

labels-IsLabel : All IsLabel labels
labels-IsLabel = ((omega arith, omega arith), ((omega arith, omega arith), tt))

parse_qname-encode_example :
    parse_qname ((7 ∷ []) ++ (encode labels ++ 9 ∷ [])) 1
    ≡ QName.name (join labels (codes ".")) (1 + length (encode labels))
parse_qname-encode_example = parse_qname-encode labels (7 ∷ []) (9 ∷ []) labels-IsLabel

abbrev query : Query
query = record {
  id_hi = 0;
  id_lo = 7;
  flags_hi = 1;
  flags_lo = 0;
  count_hi = 0;
  count_lo = 1;
  an_hi = 0;
  an_lo = 0;
  ns_hi = 0;
  ns_lo = 0;
  ar_hi = 0;
  ar_lo = 0;
  labels = labels;
  type_hi = 0;
  type_lo = 1;
  class_hi = 0;
  class_lo = 1;
  extra = [];
}

respond_lem_example :
    respond one_name (packet query)
    ≡ some (response query (address_of (Domain.lookup_name one_name (join labels (codes ".")))))
respond_lem_example = respond_lem query one_name labels-IsLabel
