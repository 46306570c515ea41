-- ===== src/Locald/Target/Ports.antt =====
-- The transport of a target's forwards.
use sshx.Prelude.{
  ◌≡◌, refl, some, [], ◌∷◌, ◌==◌, bytes_eq, eq_iff, eq_refl, arith, Bool-cases, inl, inr,
}
use sshx.Prelude.Text.{Bytes}
use sshx.Prelude.Map.{Map, lookup, IsMap, count}
use sshx.Locald.{SessionRecord}
use sshx.Locald.Target.{transport}

-- What `transport` answers for a target: what one of its leases says, or, without a lease, nothing.
pub data Answers (key : Bytes) (sessions : Map Bytes SessionRecord) : Type 0 where
  leased :
      (id : Bytes) (session : SessionRecord)
      → lookup id sessions ≡ some session
      → session.target_key ≡ key
      → transport key sessions ≡ (session.ssh_path, session.ssh_args, session.control_path)
      → Answers key sessions
  idle :
      count (λ session. session.target_key == key) sessions ≡ 0
      → transport key sessions ≡ ([], [], [])
      → Answers key sessions

-- In a table that has each lease once, the transport of a target is that of one of its leases, and
-- empty only when it has none.
pub transport-Answers :
    (key : Bytes) (sessions : Map Bytes SessionRecord) → IsMap sessions → Answers key sessions
unfolding transport lookup
transport-Answers key [] m = idle refl refl
transport-Answers key ((id, session) ∷ sessions) (absent, m) =
    elim (Bool-cases (session.target_key == key)) [
      | inl mine ↦
          leased id session (ground (arith, eq_refl id)) ((eq_iff session.target_key key).0 mine)
            (ground arith)
      | inr other ↦ elim (transport-Answers key sessions m) [
        | leased j s found same e ↦ leased j s (ground (arith, eq_iff id j)) same (ground arith)
        | idle none_held e ↦ idle (ground arith) (ground arith)
      ]
    ]
