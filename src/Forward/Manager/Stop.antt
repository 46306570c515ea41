-- ===== src/Forward/Manager/Stop.antt =====
-- `Stop` and `Remove` release what they take out of the table.
use sshx.Prelude.{
  ℕ, ◌≡◌, refl, sym, ap, ◌∙◌, true, false, ◌||◌, none, some, List, [], ◌∷◌, ◌++◌, append_assoc,
  append-nil, is_empty, if◌then◌else◌, Option-cases, inl, inr, ◌==◌, nat_eq, arith,
}
use sshx.Prelude.Text.{Bytes, codes}
use sshx.Prelude.Map.{lookup, delete, lookup-delete, values}
use sshx.Forward.Manager.{
  Forward, Effect, closed, Manager, failed, is_stopped, Env, control_op, abandon, drop_forward,
  ensure, remove, drop_all, stop,
}

-- What the release of a forward does: a listener is closed, a forward of OpenSSH is cancelled.
abbrev pub release : Forward → List Effect
release f =
    (if f.listening then closed f.listen_ip f.remote_port ∷ [] else [])
    ++ (if is_empty f.control_path || is_empty f.spec || is_empty f.ssh_path
        then []
        else control_op f.ssh_path f.ssh_args f.control_path (codes "cancel") f.spec ∷ [])

abbrev pub release_all : List Forward → List Effect
release_all [] = []
release_all (f ∷ fs) = release f ++ release_all fs

effects-drop_forward :
    (m : Manager) (f : Forward) → (drop_forward m f).effects ≡ m.effects ++ release f
unfolding drop_forward abandon
effects-drop_forward m f = ground (
  arith,
  append_assoc m.effects (if f.listening then closed f.listen_ip f.remote_port ∷ [] else [])
      (control_op f.ssh_path f.ssh_args f.control_path (codes "cancel") f.spec ∷ []),
  append-nil m.effects,
  append-nil (m.effects ++ closed f.listen_ip f.remote_port ∷ []),
)

rest-drop_forward :
    (m : Manager) (f : Forward)
    → ((drop_forward m f).by_remote ≡ m.by_remote) × ((drop_forward m f).stopped ≡ m.stopped)
unfolding drop_forward abandon
rest-drop_forward m f = ground arith

rest-drop_all :
    (fs : List Forward) (m : Manager)
    → ((drop_all m fs).by_remote ≡ m.by_remote) × ((drop_all m fs).stopped ≡ m.stopped)
unfolding drop_all
rest-drop_all [] m = (refl, refl)
rest-drop_all (f ∷ fs) m =
    ground (arith, rest-drop_all fs (drop_forward m f), rest-drop_forward m f)

effects-drop_all :
    (fs : List Forward) (m : Manager) → (drop_all m fs).effects ≡ m.effects ++ release_all fs
unfolding drop_all
effects-drop_all [] m = sym (append-nil m.effects)
effects-drop_all (f ∷ fs) m =
    effects-drop_all fs (drop_forward m f)
    ∙ ap (λ es. es ++ release_all fs) (effects-drop_forward m f)
    ∙ append_assoc m.effects (release f) (release_all fs)

-- A manager that is stopped has an empty table, has released every forward of the table in turn, has
-- canceled its context, and gives no forward any more.
pub stop_releases :
    (m : Manager)
    → m.stopped ≡ false
    → ((stop m).by_remote ≡ [])
      × ((stop m).effects ≡ m.effects ++ release_all (values m.by_remote))
      × ((stop m).canceled ≡ true)
      × ((env : Env) (others : Manager → Manager) (port : ℕ) (listen_ip remote_host : Bytes)
          → ensure env others (stop m) port listen_ip remote_host ≡ (failed is_stopped, stop m))
unfolding stop ensure
stop_releases m h =
    let emptied = record m { stopped = true; by_remote = [] } in
    let rest = rest-drop_all (values m.by_remote) emptied in
    let log = effects-drop_all (values m.by_remote) emptied in
    (
      ground arith,
      ground arith,
      ground arith,
      λ env others port listen_ip remote_host. ground arith,
    )

-- `Remove` takes one port out of the table, releases its forward, and leaves the other ports.
pub remove_releases :
    (m : Manager) (port other : ℕ)
    → (lookup other (remove m port).by_remote
        ≡ (if port == other then none else lookup other m.by_remote))
      × ((f : Forward)
          → lookup port m.by_remote ≡ some f
          → (remove m port).effects ≡ m.effects ++ release f)
unfolding remove
remove_releases m port other =
    let removed = record m { by_remote = delete port m.by_remote } in
    let cut = lookup-delete port other m.by_remote in
    elim (Option-cases (lookup port m.by_remote)) [
      | inl absent ↦ (ground arith, λ f h. ground arith)
      | inr (f, found) ↦
          let rest = rest-drop_forward removed f in
          let log = effects-drop_forward removed f in (ground arith, λ g h. ground arith)
    ]
