-- ===== src/Bridge/Clients.antt =====
-- internal/bridge/bridge.go: the clients of the bridge server, and how a command finds one. What a
-- removal does to the remote file system of a session, and a command that mounts it, are not modelled.
pub mod Retry
pub mod Registry
use sshx.Prelude.{
  ℕ, zero, suc, Bool, true, false, not, ◌&&◌, ◌||◌, Option, none, some, List, [], ◌∷◌, ◌++◌,
  is_empty, length, if◌then◌else◌, ◌==◌, nat_eq, bytes_eq, contains,
}
use sshx.Prelude.Text.{Bytes, codes}

-- `id` stands for the identity of the connection object.
pub record Client : Type 0 where
  pub id : ℕ
  pub session_id : Bytes
  pub context_id : Bytes
  pub capabilities : List Bytes

pub record Server : Type 0 where
  pub clients : List Client
  pub ever_had_client : Bool
  pub draining : Bool
  pub last_active : ℕ

unfoldable pub has_session : List Client → Bytes → Bool
has_session [] session_id = false
has_session (c ∷ cs) session_id = c.session_id == session_id || has_session cs session_id

-- `now` is the time.
unfoldable pub add_client : ℕ → Server → Client → Bool × Server
add_client now s c = if s.draining || has_session s.clients c.session_id then (false, s) else (
  true,
  record s { clients = s.clients ++ c ∷ []; ever_had_client = true; last_active = now },
)

-- The loop of `removeClient`: the first client that is this one is taken out.
unfoldable pub take_out : List Client → Client → Bool × List Client
take_out [] c = (false, [])
take_out (existing ∷ cs) c =
    let (found, rest) = take_out cs c in
    if existing.id == c.id then (true, cs) else (found, existing ∷ rest)

unfoldable pub remove_client : ℕ → Server → Client → Server
unfolding take_out
remove_client now s c =
    let (found, rest) = take_out s.clients c in
    if found then record s { clients = rest; last_active = now } else s

unfoldable pub serves : Bytes → Bytes → Bytes → Client → Bool
serves context_id session_id capability c =
    (is_empty session_id || c.session_id == session_id)
    && (is_empty context_id || c.context_id == context_id)
    && (is_empty capability || contains c.capabilities capability)

unfoldable pub pick_client : (Client → Bool) → List Client → Option Client
pick_client serves_it [] = none
pick_client serves_it (c ∷ cs) =
    let later = pick_client serves_it cs in if serves_it c then some c else later

-- What a client makes of a command: a response, or an error of its connection.
pub data Reply : Type 0 where
  answered : Bytes → Reply
  broken : ℕ → Reply

pub data Outcome : Type 0 where
  response : Client → Bytes → Outcome
  no_client : Outcome
  last_error : ℕ → Outcome

abbrev pub refusal : Option ℕ → Outcome
refusal none = no_client
refusal (some e) = last_error e

-- The loop of `handleRequester`, while no other handler changes the clients; `none` is a loop that
-- the fuel has stopped.
unfoldable pub attempts :
    ℕ → (Client → Bool) → (Client → Reply) → Option ℕ → List Client → Option Outcome × List Client
unfolding pick_client take_out
attempts zero serves_it request last clients = (none, clients)
attempts (suc fuel) serves_it request last clients = elim (pick_client serves_it clients) [
  | none ↦ (some (refusal last), clients)
  | some c ↦ elim (request c) [
    | answered r ↦ (some (response c r), clients)
    | broken e ↦ attempts fuel serves_it request (some e) (take_out clients c).1
  ]
]

-- A command for a session and a context, either of them given or not, with a round for each client
-- and one more.
unfoldable pub run_command :
    (Client → Reply) → Bytes → Bytes → List Client → Option Outcome × List Client
unfolding attempts serves
run_command request context_id session_id clients =
    attempts (suc (length clients))
      (serves context_id session_id (codes "command.exec.batch-stdin")) request none clients
