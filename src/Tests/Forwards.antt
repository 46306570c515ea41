-- ===== src/Tests/Forwards.antt =====
-- The table of forwards.
use sshx.Prelude.{ℕ, ◌≡◌, refl, true, false, some, List, [], ◌∷◌, ◌++◌, nat_eq, bytes_eq}
use sshx.Prelude.Text.{Bytes, codes}
use sshx.Prelude.Map.{lookup}
use sshx.Forward.Manager
use sshx.Forward.Manager.Ensure.{lookup-ensure}
use sshx.Forward.Manager.Stop.{release_all, stop_releases}

abbrev command_line : List Bytes
command_line = codes "-p" ∷ codes "22" ∷ codes "host" ∷ codes "ls" ∷ []

abbrev env : Manager.Env
env = record {
  ssh_path = codes "ssh";
  ssh_args = command_line;
  control_path = codes "/tmp/c";
  opens = true;
}

abbrev no_forwards : Manager.Manager
no_forwards = record { by_remote = []; stopped = false; effects = []; canceled = false }

abbrev eight : Manager.Forward
eight = Manager.control_forward env 8 (codes "127.64.0.1") (codes "localhost")

abbrev one_forward : Manager.Manager
one_forward = record {
  by_remote = (8, eight) ∷ [];
  stopped = false;
  effects = [];
  canceled = false;
}

abbrev after_ensure : Manager.Outcome × Manager.Manager
after_ensure = Manager.ensure env (λ m. m) no_forwards 8 (codes "127.64.0.1") (codes "localhost")

returned : after_ensure.0 ≡ Manager.forward eight
unfolding Manager.ensure lookup Manager.open_forward Manager.commit
returned = refl

not_stopped : after_ensure.1.stopped ≡ false
unfolding Manager.ensure lookup Manager.open_forward Manager.commit
not_stopped = refl

lookup-ensure_example : lookup 8 after_ensure.1.by_remote ≡ some eight
lookup-ensure_example =
    lookup-ensure env (λ m. m) no_forwards 8 (codes "127.64.0.1") (codes "localhost") eight returned

stop_releases_example :
    ((Manager.stop one_forward).by_remote ≡ [])
    × ((Manager.stop one_forward).effects ≡ [] ++ release_all (eight ∷ []))
    × ((Manager.stop one_forward).canceled ≡ true)
    × ((env2 : Manager.Env) (others : Manager.Manager → Manager.Manager) (port : ℕ)
          (listen_ip remote_host : Bytes)
        → Manager.ensure env2 others (Manager.stop one_forward) port listen_ip remote_host
          ≡ (Manager.failed Manager.is_stopped, Manager.stop one_forward))
stop_releases_example = stop_releases one_forward refl
