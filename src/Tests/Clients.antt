-- ===== src/Tests/Clients.antt =====
-- The clients of the bridge server.
use sshx.Prelude.{
  ℕ, ◌≡◌, refl, Bool, true, false, Option, none, some, List, [], ◌∷◌, ◌++◌, nat_eq, bytes_eq,
  is_empty, if◌then◌else◌, ◌==◌,
}
use sshx.Prelude.Text.{Bytes, codes}
use sshx.Prelude.Set.{Distinct}
use sshx.Bridge.Clients.{
  Client, Server, add_client, serves, pick_client, Reply, answered, broken, Outcome, run_command,
}
use sshx.Bridge.Clients.Retry.{ids, one_pass, run_command-one_pass}
use sshx.Bridge.Clients.Registry.{sessions}

abbrev exec : Bytes
exec = codes "command.exec.batch-stdin"

abbrev first : Client
first = record { id = 1; session_id = codes "a"; context_id = codes "x"; capabilities = exec ∷ [] }

abbrev second : Client
second = record { id = 2; session_id = codes "b"; context_id = codes "x"; capabilities = exec ∷ [] }

-- The first client is broken, the second one answers.
abbrev reply : Client → Reply
reply c = if c.id == 1 then broken 7 else answered (codes "done")

distinct_ids : Distinct (ids (first ∷ second ∷ []))
unfolding sshx.Prelude.contains
distinct_ids = (refl, (refl, tt))

run_command-one_pass_example : run_command reply (codes "x") [] (first ∷ second ∷ []) ≡ (
  some (one_pass (serves (codes "x") [] exec) reply none (first ∷ second ∷ [])).0,
  (one_pass (serves (codes "x") [] exec) reply none (first ∷ second ∷ [])).1,
)
run_command-one_pass_example =
    run_command-one_pass reply (codes "x") [] (first ∷ second ∷ []) distinct_ids

answers :
    run_command reply (codes "x") [] (first ∷ second ∷ [])
    ≡ (some (Outcome.response second (codes "done")), second ∷ [])
unfolding run_command sshx.Prelude.bytes_beq sshx.Prelude.contains
answers = refl

abbrev one_client : Server
one_client = record {
  clients = first ∷ [];
  ever_had_client = true;
  draining = false;
  last_active = 0;
}

one_session : Distinct (sessions one_client.clients)
unfolding sshx.Prelude.contains
one_session = (refl, tt)

is_accepted : (add_client 5 one_client second).0 ≡ true
unfolding add_client sshx.Bridge.Clients.has_session sshx.Prelude.bytes_beq
is_accepted = refl
