-- ===== src/Forward/Manager.antt =====
-- internal/forward/forward.go: the forwards of one target, by remote port.
-- `Ensure` holds the lock twice. What other goroutines do between is an argument, `others`, any
-- function on the manager; the runs of ssh and the listeners are a list of effects.
pub mod Ensure
pub mod Stop
use sshx.Prelude.{
  ℕ, Bool, true, false, not, ◌||◌, Option, none, some, List, [], ◌∷◌, ◌++◌, is_empty, if◌then◌else◌,
  nat_eq,
}
use sshx.Prelude.Text.{Bytes, codes}
use sshx.Prelude.Map.{Map, lookup, insert, delete, values}
use sshx.Forward.Control.{control_operation_args, local_forward_spec}

pub record Forward : Type 0 where
  pub remote_port : ℕ
  pub local_port : ℕ
  pub listen_ip : Bytes
  pub spec : Bytes
  pub ssh_path : Bytes
  pub ssh_args : List Bytes
  pub control_path : Bytes
  -- `listener != nil`
  pub listening : Bool

pub data Effect : Type 0 where
  -- a run of ssh: its path and its arguments
  ran : Bytes → List Bytes → Effect
  -- a listener in this process, on an address and a port
  listened : Bytes → ℕ → Effect
  closed : Bytes → ℕ → Effect

-- `canceled` is whether `cancel` was called; what that does to a run of ssh is in `Env`.
pub record Manager : Type 0 where
  pub by_remote : Map ℕ Forward
  pub stopped : Bool
  pub effects : List Effect
  pub canceled : Bool

pub data Failure : Type 0 where
  is_stopped listen_ip_required no_transport control_failed listen_failed : Failure

pub data Outcome : Type 0 where
  forward : Forward → Outcome
  failed : Failure → Outcome

-- What `transport` answers, and whether the run of ssh or the listener succeeds.
pub record Env : Type 0 where
  pub ssh_path : Bytes
  pub ssh_args : List Bytes
  pub control_path : Bytes
  pub opens : Bool

abbrev pub emit : Manager → Effect → Manager
emit m e = record m { effects = m.effects ++ e ∷ [] }

abbrev pub control_op : Bytes → List Bytes → Bytes → Bytes → Bytes → Effect
control_op ssh_path ssh_args control_path operation spec =
    ran ssh_path (control_operation_args ssh_args control_path operation (codes "L") spec)

unfoldable pub abandon : Manager → Forward → Manager
abandon m f = if f.listening then emit m (closed f.listen_ip f.remote_port) else m

-- The cancel operation has its own two seconds; its failure is ignored.
unfoldable pub drop_forward : Manager → Forward → Manager
unfolding abandon
drop_forward m f =
    let released = abandon m f in
    if is_empty f.control_path || is_empty f.spec || is_empty f.ssh_path
    then released
    else emit released (control_op f.ssh_path f.ssh_args f.control_path (codes "cancel") f.spec)

-- The second part of `Ensure` under the lock.
unfoldable pub commit : Manager → Forward → Outcome × Manager
unfolding drop_forward abandon
commit m f =
    if m.stopped
    then (failed is_stopped, drop_forward m f)
    else elim (lookup f.remote_port m.by_remote) [
      | some existing ↦ (forward existing, abandon m f)
      | none ↦ (forward f, record m { by_remote = insert f.remote_port f m.by_remote })
    ]

abbrev pub control_forward : Env → ℕ → Bytes → Bytes → Forward
control_forward env remote_port listen_ip remote_host = record {
  remote_port = remote_port;
  local_port = remote_port;
  listen_ip = listen_ip;
  spec = local_forward_spec listen_ip remote_port remote_host;
  ssh_path = env.ssh_path;
  ssh_args = env.ssh_args;
  control_path = env.control_path;
  listening = false;
}

abbrev pub listener_forward : ℕ → Bytes → Forward
listener_forward remote_port listen_ip = record {
  remote_port = remote_port;
  local_port = remote_port;
  listen_ip = listen_ip;
  spec = [];
  ssh_path = [];
  ssh_args = [];
  control_path = [];
  listening = true;
}

unfoldable pub open_forward :
    Env → (Manager → Manager) → Manager → ℕ → Bytes → Bytes → Outcome × Manager
open_forward env others m remote_port listen_ip remote_host =
    if is_empty listen_ip
    then (failed listen_ip_required, others m)
    else if not (is_empty env.control_path)
    then (if is_empty env.ssh_path
        then (failed no_transport, others m)
        else (let f = control_forward env remote_port listen_ip remote_host in
            let ran_ssh = others (
              emit m
                (control_op env.ssh_path env.ssh_args env.control_path (codes "forward") f.spec)) in
            if env.opens then commit ran_ssh f else elim (lookup remote_port ran_ssh.by_remote) [
              | some existing ↦ (forward existing, ran_ssh)
              | none ↦ (failed control_failed, ran_ssh)
            ]))
    else if env.opens
    then commit (others (emit m (listened listen_ip remote_port)))
        (listener_forward remote_port listen_ip)
    else (failed listen_failed, others m)

unfoldable pub ensure : Env → (Manager → Manager) → Manager → ℕ → Bytes → Bytes → Outcome × Manager
ensure env others m remote_port listen_ip remote_host =
    if m.stopped then (failed is_stopped, m) else elim (lookup remote_port m.by_remote) [
      | some f ↦ (forward f, m)
      | none ↦ open_forward env others m remote_port listen_ip remote_host
    ]

pub record Entry : Type 0 where
  pub remote_port : ℕ
  pub local_port : ℕ
  pub listen_ip : Bytes

unfoldable pub entries : List Forward → List Entry
entries [] = []
entries (f ∷ fs) =
    record { remote_port = f.remote_port; local_port = f.local_port; listen_ip = f.listen_ip }
    ∷ entries fs

unfoldable pub list : Manager → List Entry
list m = entries (values m.by_remote)

unfoldable pub remove : Manager → ℕ → Manager
remove m remote_port =
    let removed = record m { by_remote = delete remote_port m.by_remote } in
    elim (lookup remote_port m.by_remote) [ none ↦ removed | some f ↦ drop_forward removed f ]

unfoldable pub drop_all : Manager → List Forward → Manager
drop_all m [] = m
drop_all m (f ∷ fs) = drop_all (drop_forward m f) fs

unfoldable pub stop : Manager → Manager
stop m =
    if m.stopped
    then m
    else record (drop_all (record m { stopped = true; by_remote = [] }) (values m.by_remote)) {
      canceled = true;
    }
