-- ===== src/Bridge/Endpoint/Heartbeats.antt =====
-- The two ends of a client's connection: how it joins, and its heartbeats.
use sshx.Prelude.{
  ℕ, ◌+◌, ◌<◌, ◌≡◌, refl, Bool, true, false, not, ◌&&◌, ◌||◌, some, is_empty, ◌==◌, bytes_eq,
  nat_eq, eq_refl, arith,
}
use sshx.Prelude.Text.{Bytes}
use sshx.Protocol.Frames.{Frame, type_heartbeat_ack, role_client}
use sshx.Bridge.Clients.{Server, add_client, has_session}
use sshx.Bridge.Connections.{
  Settings, Fate, joined, handle_conn, handle_role, admit, client_of, Conn, answers, heartbeat,
  read_frame, heartbeat_ack,
}
use sshx.Bridge.Endpoint.{
  ClientOptions, Endpoint, ignored, with_defaults, client_hello, heartbeat_tick, heartbeat_frame,
  client_frame,
}
use sshx.Bridge.Endpoint.Commands.{our_versions-compatible}

abbrev pub is_joined : Fate → Bool
is_joined (joined client answer) = true
is_joined fate = false

-- A connection becomes a client's if the token fits, the runtimes are the same, the server takes
-- clients, and the session is new.
abbrev pub may_join : Settings → ClientOptions → Server → Bool
may_join c opts s =
    (is_empty c.token || opts.token == c.token)
    && opts.runtime_id == c.runtime_id
    && not s.draining
    && not (has_session s.clients opts.session_id)

named :
    (c : Settings) (opts : ClientOptions) (id now : ℕ) (s : Server)
    → is_empty opts.session_id ≡ false
    → is_empty opts.target_id ≡ false
    → is_empty opts.context_id ≡ false
    → handle_role c id now (client_hello opts) s role_client
      ≡ admit c
          (client_of id (client_hello opts))
          (add_client now s (client_of id (client_hello opts)))
unfolding handle_role client_hello
named c opts id now s hs ht hc = rw (hs, ht, hc)

admit-joined :
    (c : Settings) (opts : ClientOptions) (id now : ℕ) (s : Server)
    → let client = client_of id (client_hello opts) in
      is_joined (admit c client (add_client now s client)).1
      ≡ (not s.draining && not (has_session s.clients opts.session_id))
unfolding admit add_client client_hello
admit-joined c opts id now s = ground arith

-- The hello of a client with a session, a target and a context is accepted if and only if the token
-- fits, the runtimes are the same, the server does not drain and the session has no client yet.
pub client_hello-joined :
    (c : Settings) (opts : ClientOptions) (id now : ℕ) (s : Server)
    → is_empty opts.session_id ≡ false
    → is_empty opts.target_id ≡ false
    → is_empty opts.context_id ≡ false
    → is_joined (handle_conn c id now (client_hello opts) s).1 ≡ may_join c opts s
unfolding handle_conn
client_hello-joined c opts id now s hs ht hc =
    let role = named c opts id now s hs ht hc in
    let fate = admit-joined c opts id now s in
    unfold client_hello in ground (arith, role, fate, our_versions-compatible)

-- What the client starts with names its session, target and context.
pub with_defaults_named :
    (uuid version runtime : Bytes) (opts : ClientOptions)
    → is_empty uuid ≡ false
    → let opts' = with_defaults uuid version runtime opts in
      (is_empty opts'.session_id ≡ false)
      × (is_empty opts'.target_id ≡ false)
      × (is_empty opts'.context_id ≡ false)
unfolding with_defaults
with_defaults_named uuid version runtime opts h = ground arith

-- What the server does with the heartbeat of a client of its runtime.
heartbeat_answered :
    (c : Settings) (opts : ClientOptions) (conn : Conn) (seen sequence : ℕ)
    → opts.runtime_id ≡ c.runtime_id
    → heartbeat c seen (heartbeat_frame opts sequence) conn ≡ (
      record conn { last_seen = seen },
      answers (heartbeat_ack c (heartbeat_frame opts sequence)),
    )
unfolding heartbeat
heartbeat_answered c opts conn seen sequence r = rw (r, eq_refl c.runtime_id)

-- What the client does with the answer.
answer_taken :
    (c : Settings) (opts : ClientOptions) (e : Endpoint) (acked : ℕ) (frame : Frame)
    → opts.runtime_id ≡ c.runtime_id
    → client_frame opts acked (heartbeat_ack c frame) e type_heartbeat_ack
      ≡ (record e { last_ack = acked }, ignored)
unfolding client_frame
answer_taken c opts e acked frame r = rw (r, eq_refl c.runtime_id)

-- While the last acknowledgement is less than the timeout ago, a tick of the client sends a heartbeat;
-- a server of the same runtime renews the client's lease for it, and its answer, with the same number,
-- renews the time of the last acknowledgement.
pub heartbeat_round :
    (c : Settings) (opts : ClientOptions) (conn : Conn) (e : Endpoint) (now seen acked sequence : ℕ)
    → opts.runtime_id ≡ c.runtime_id
    → now < e.last_ack + opts.heartbeat_timeout
    → (frame answer : Frame) × (heartbeat_tick opts now e.last_ack sequence ≡ some frame)
      × (read_frame c seen frame conn frame.type
          ≡ (record conn { last_seen = seen }, answers answer))
      × (answer.sequence ≡ sequence + 1)
      × (client_frame opts acked answer e answer.type ≡ (record e { last_ack = acked }, ignored))
unfolding heartbeat_tick read_frame
heartbeat_round c opts conn e now seen acked sequence r in_time =
    let frame = heartbeat_frame opts (sequence + 1) in
    (
      frame,
      heartbeat_ack c frame,
      ground arith,
      heartbeat_answered c opts conn seen (sequence + 1) r,
      refl,
      answer_taken c opts e acked frame r,
    )
