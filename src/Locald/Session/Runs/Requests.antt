-- ===== src/Locald/Session/Runs/Requests.antt =====
-- What a request without a lease of its own, and an idle target, do to the two tables.
use sshx.Prelude.{
  ◌≡◌, ◌⊎◌, refl, Bool, true, false, not, ◌&&◌, some, is_empty, ◌==◌, bytes_eq, nat_eq, arith,
  Option-cases, Bool-cases, inl, inr,
}
use sshx.Prelude.Text.{Bytes}
use sshx.Prelude.Map.{lookup, delete}
use sshx.Locald.{
  Request, RequestType, TargetRecord, Server, request_lease_id, initiate_shutdown, has_session,
}
use sshx.Locald.Target.{ensure_target, ensure_target_port, remove_target_port, forwarder}
use sshx.Locald.Session.{drop_idle, cleanup_idle_target, handle, needs_lease, handle_conn}
use sshx.Locald.Session.Leases.{targets-drop_target, targets-shut_down_when}

-- Two servers with the same leases and targets.
abbrev pub Same : Server → Server → Type 0
Same s t =
    (s.sessions ≡ t.sessions)
    × (s.targets ≡ t.targets)
    × (s.draining ≡ t.draining)
    × (s.shut_down ≡ t.shut_down)

ensure_target_port-Same :
    (starts opens : Bool) (s : Server) (req : Request)
    → Same (ensure_target_port starts opens s req).1 s
      ⊎ Same (ensure_target_port starts opens s req).1 (ensure_target starts s req).1
unfolding ensure_target_port forwarder
ensure_target_port-Same starts opens s req = elim (Bool-cases (req.remote_port == 0)) [
  | inl zero_port ↦ inl (ground arith)
  | inr some_port ↦ inr (ground arith)
]

remove_target_port-Same : (s : Server) (req : Request) → Same (remove_target_port s req).1 s
unfolding remove_target_port
remove_target_port-Same s req = ground arith

RequestType-cases :
    (k : RequestType)
    → (k ≡ RequestType.ensure_target_port)
      ⊎ ((k ≡ RequestType.remove_target_port) ⊎ (needs_lease k ≡ false))
unfolding needs_lease
RequestType-cases RequestType.ensure_target_port = inl refl
RequestType-cases RequestType.remove_target_port = inr (inl refl)
RequestType-cases RequestType.ping = inr (inr refl)
RequestType-cases RequestType.list_ports = inr (inr refl)
RequestType-cases RequestType.open_session = inr (inr refl)
RequestType-cases RequestType.heartbeat = inr (inr refl)
RequestType-cases RequestType.shutdown = inr (inr refl)
RequestType-cases RequestType.unknown = inr (inr refl)

handle-idle :
    (starts opens : Bool) (s : Server) (req : Request)
    → needs_lease req.kind ≡ false
    → (handle starts opens s req).1 ≡ s
unfolding handle needs_lease
handle-idle starts opens s req h = ground arith

handle-Same :
    (starts opens : Bool) (s : Server) (req : Request)
    → Same (handle starts opens s req).1 s
      ⊎ ((needs_lease req.kind ≡ true)
          × Same (handle starts opens s req).1 (ensure_target starts s req).1)
unfolding handle
handle-Same starts opens s req = elim (RequestType-cases req.kind) [
  | inl ensures ↦ elim (ensure_target_port-Same starts opens s req) [
    | inl (a, b, c, d) ↦ inl (ground arith, ground arith, ground arith, ground arith)
    | inr (a, b, c, d) ↦ inr (
      unfold needs_lease in ground arith,
      (ground arith, ground arith, ground arith, ground arith),
    )
  ]
  | inr (inl removes) ↦
      let (a, b, c, d) = remove_target_port-Same s req in
      inl (ground arith, ground arith, ground arith, ground arith)
  | inr (inr idle) ↦
      let e = handle-idle starts opens s req idle in
      inl (ground arith, ground arith, ground arith, ground arith)
]

-- A request leaves leases and targets alone, or does what `ensureTarget` does, and then it came with
-- a lease that is in the table.
pub handle_conn-cases :
    (starts opens : Bool) (s : Server) (req : Request)
    → let s' = (handle_conn starts opens s req).1 in
      ((s'.sessions ≡ s.sessions) × (s'.targets ≡ s.targets))
      ⊎ ((has_session s (request_lease_id req) ≡ true)
          × (s'.sessions ≡ (ensure_target starts s req).1.sessions)
          × (s'.targets ≡ (ensure_target starts s req).1.targets))
unfolding handle_conn initiate_shutdown
handle_conn-cases starts opens s req =
    elim (Bool-cases (needs_lease req.kind && not (has_session s (request_lease_id req)))) [
      | inl lacks ↦ inl (ground arith, ground arith)
      | inr may ↦ elim (handle-Same starts opens s req) [
        | inl (a, b, c, d) ↦ inl (ground arith, ground arith)
        | inr (needs, (a, b, c, d)) ↦ inr (ground arith, ground arith, ground arith)
      ]
    ]

pub drop_idle-cases :
    (s : Server) (key : Bytes)
    → ((cleanup_idle_target s key).sessions ≡ s.sessions)
      × (((cleanup_idle_target s key).targets ≡ s.targets)
          ⊎ ((rec : TargetRecord) × (lookup key s.targets ≡ some rec)
              × (rec.sessions ≡ 0)
              × ((cleanup_idle_target s key).targets ≡ delete key s.targets)))
unfolding cleanup_idle_target drop_idle
drop_idle-cases s key =
    let shut =
      targets-shut_down_when
        (is_empty (drop_idle s key).sessions && is_empty (drop_idle s key).targets)
        (drop_idle s key) in
    elim (Option-cases (lookup key s.targets)) [
      | inl absent ↦ (ground arith, inl (ground arith))
      | inr (rec, found) ↦
          let dropped = targets-drop_target s key rec in
          elim (Bool-cases (rec.sessions == 0)) [
            | inl idle ↦ (ground arith, inr (rec, found, ground arith, ground arith))
            | inr busy ↦ (ground arith, inl (ground arith))
          ]
    ]
