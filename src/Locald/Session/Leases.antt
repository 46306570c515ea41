-- ===== src/Locald/Session/Leases.antt =====
-- What the steps of a release do to the tables.
use sshx.Prelude.{
  ◌-◌, ◌≤◌, ◌<◌, ◌≡◌, Bool, none, some, leb, bytes_eq, nat_eq, arith, Option-cases, Bool-cases, inl,
  inr, ◌⊎◌,
}
use sshx.Prelude.Text.{Bytes}
use sshx.Prelude.Map.{lookup, insert, delete}
use sshx.Locald.{TargetRecord, Server, initiate_shutdown}
use sshx.Locald.Session.{stop_forwarder, drop_target, leave_target, shut_down_when}

pub targets-stop_forwarder :
    (s : Server) (key : Bytes)
    → ((stop_forwarder s key).targets ≡ s.targets) × ((stop_forwarder s key).sessions ≡ s.sessions)
unfolding stop_forwarder
targets-stop_forwarder s key = ground arith

pub targets-drop_target :
    (s : Server) (key : Bytes) (rec : TargetRecord)
    → ((drop_target s key rec).targets ≡ delete key s.targets)
      × ((drop_target s key rec).sessions ≡ s.sessions)
unfolding drop_target
targets-drop_target s key rec = ground (arith, targets-stop_forwarder s key)

pub targets-shut_down_when :
    (b : Bool) (s : Server)
    → ((shut_down_when b s).targets ≡ s.targets) × ((shut_down_when b s).sessions ≡ s.sessions)
unfolding shut_down_when initiate_shutdown
targets-shut_down_when b s = ground arith

-- What a release leaves of the targets: none of the key was held, the last lease of the record was
-- given up, or one of several.
pub leave_target-cases :
    (s : Server) (key : Bytes)
    → ((leave_target s key).sessions ≡ s.sessions)
      × (((lookup key s.targets ≡ none) × ((leave_target s key).targets ≡ s.targets))
          ⊎ ((rec : TargetRecord) × (lookup key s.targets ≡ some rec)
              × (((rec.sessions ≤ 1) × ((leave_target s key).targets ≡ delete key s.targets))
                  ⊎ ((1 < rec.sessions)
                      × ((leave_target s key).targets
                          ≡ insert key (record rec { sessions = rec.sessions - 1 }) s.targets)))))
unfolding leave_target
leave_target-cases s key = elim (Option-cases (lookup key s.targets)) [
  | inl absent ↦ (ground arith, inl (absent, ground arith))
  | inr (rec, found) ↦
      let dropped = targets-drop_target s key (record rec { sessions = 0 }) in
      elim (Bool-cases (leb rec.sessions 1)) [
        | inl last ↦ (ground arith, inr (rec, found, inl (ground arith, ground arith)))
        | inr more ↦ (ground arith, inr (rec, found, inr (ground arith, ground arith)))
      ]
]
