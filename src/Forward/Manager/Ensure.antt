-- ===== src/Forward/Manager/Ensure.antt =====
-- `Ensure` under any interference.
use sshx.Prelude.{
  ℕ, ◌≡◌, true, false, none, some, [], ◌∷◌, ◌++◌, if◌then◌else◌, nat_eq, eq_refl, append-nil, arith,
}
use sshx.Prelude.Text.{Bytes, codes}
use sshx.Prelude.Map.{lookup, lookup-insert}
use sshx.Forward.Manager.{
  Forward, closed, listened, Manager, forward, failed, is_stopped, Env, emit, control_op, abandon,
  drop_forward, commit, control_forward, listener_forward, open_forward, ensure,
}

commit_in_table :
    (m : Manager) (f g : Forward)
    → (commit m f).0 ≡ forward g
    → lookup f.remote_port (commit m f).1.by_remote ≡ some g
unfolding commit
commit_in_table m f g h =
    ground (arith, lookup-insert f.remote_port f.remote_port f m.by_remote, eq_refl f.remote_port)

-- Whatever the others do meanwhile, the forward that `Ensure` returns is the one that the table has
-- for the port when it returns.
pub lookup-ensure :
    (env : Env) (others : Manager → Manager) (m : Manager) (port : ℕ)
    (listen_ip remote_host : Bytes) (f : Forward)
    → (ensure env others m port listen_ip remote_host).0 ≡ forward f
    → lookup port (ensure env others m port listen_ip remote_host).1.by_remote ≡ some f
unfolding ensure open_forward
lookup-ensure env others m port ip host f h =
    let c = control_forward env port ip host in
    ground (
      arith,
      commit_in_table
          (others (
            emit m
              (control_op env.ssh_path env.ssh_args env.control_path (codes "forward") c.spec)))
          c f,
      commit_in_table (others (emit m (listened ip port))) (listener_forward port ip) f,
    )

-- A second `Ensure` of the port, with nobody else between, gives the same forward, whatever address
-- and host it names, and runs nothing.
pub ensure_twice :
    (env env' : Env) (others others' : Manager → Manager) (m : Manager) (port : ℕ)
    (ip ip' host host' : Bytes) (f : Forward)
    → (ensure env others m port ip host).0 ≡ forward f
    → (ensure env others m port ip host).1.stopped ≡ false
    → ensure env' others' (ensure env others m port ip host).1 port ip' host'
      ≡ (forward f, (ensure env others m port ip host).1)
ensure_twice env env' others others' m port ip ip' host host' f h open1 =
    let m1 = (ensure env others m port ip host).1 in
    let e : lookup port m1.by_remote ≡ some f = lookup-ensure env others m port ip host f h in
    known env' others' m1 port ip' host' f open1 e
  where
    known :
        (env2 : Env) (others2 : Manager → Manager) (m2 : Manager) (port2 : ℕ) (ip2 host2 : Bytes)
        (f2 : Forward)
        → m2.stopped ≡ false
        → lookup port2 m2.by_remote ≡ some f2
        → ensure env2 others2 m2 port2 ip2 host2 ≡ (forward f2, m2)
    known env2 others2 m2 port2 ip2 host2 f2 o2 e2 = unfold ensure in ground arith

-- What a call may add to the effects of the manager that it meets under the lock, by what it finds
-- there: a stopped manager has the new forward dropped, a table that has the port keeps its forward
-- and the new one is only closed, never cancelled, and else nothing more runs.
pub record Commits (m : Manager) (f : Forward) : Type 0 where
  pub on_stopped : m.stopped ≡ true → commit m f ≡ (failed is_stopped, drop_forward m f)
  pub on_lost_race :
      (existing : Forward)
      → m.stopped ≡ false
      → lookup f.remote_port m.by_remote ≡ some existing
      → ((commit m f).0 ≡ forward existing)
        × ((commit m f).1.by_remote ≡ m.by_remote)
        × ((commit m f).1.effects
            ≡ m.effects ++ (if f.listening then closed f.listen_ip f.remote_port ∷ [] else []))
  pub on_success :
      m.stopped ≡ false
      → lookup f.remote_port m.by_remote ≡ none
      → ((commit m f).0 ≡ forward f) × ((commit m f).1.effects ≡ m.effects)

-- The second part of `Ensure` under the lock, on each of its three branches.
pub commit-Commits : (m : Manager) (f : Forward) → Commits m f
unfolding commit abandon
commit-Commits m f = record {
  on_stopped = λ h. ground arith;
  on_lost_race = λ existing h e. ground (arith, append-nil m.effects);
  on_success = λ h e. ground arith;
}
