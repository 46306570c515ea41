-- ===== src/RemoteFs/Peer/Handshake/Agreed.antt =====
-- The two ends of the handshake on a connection in memory, which delivers every frame.
use sshx.Prelude.{
  ◌≡◌, Bool, true, false, Option, none, some, List, [], ◌∷◌, ◌++◌, is_empty, if◌then◌else◌, nat_eq,
}
use sshx.Prelude.Text.{Bytes}
use sshx.RemoteFs.Frame.{
  WireFrame, WireResult, ok, err, end_of_stream, write_failed, frame_response,
}
use sshx.RemoteFs.Peer.Loop.{start_peer}
use sshx.RemoteFs.Peer.Handshake.{
  Conn, Handshake, Validate, established, failed, refused, unexpected, validated, connect, accept,
  connect_response, accept_hello, is_hello, is_hello_ok, hello_frame, hello_ok_frame, refusal_frame,
}

-- The pipe, with what it carries in each direction, which ends are closed, and how the
-- handshake of the accepting end has ended.
pub record Pipe (S : Type 0) : Type 0 where
  pub to_server : List WireFrame
  pub to_client : List WireFrame
  pub server_closed : Bool
  pub client_closed : Bool
  pub accepted : Option (Handshake S)

abbrev pub new_pipe : {S : Type 0} → Pipe S
new_pipe = record {
  to_server = [];
  to_client = [];
  server_closed = false;
  client_closed = false;
  accepted = none;
}

module _ {S : Type 0} where
  abbrev pub server_end : Conn (Pipe S)
  server_end = record {
    write_frame = λ f p.
        if p.client_closed
        then (p, err write_failed)
        else (record p { to_client = p.to_client ++ (f ∷ []) }, ok tt);
    read_frame = λ p. elim p.to_server [
      | [] ↦ (p, err end_of_stream)
      | f ∷ fs ↦ (record p { to_server = fs }, ok f)
    ];
    close_conn = λ p. record p { server_closed = true };
  }

  -- The accepting end runs when the connecting one waits for its answer.
  unfoldable pub run_server : Validate → S → Pipe S → Pipe S
  unfolding accept
  run_server validate t p =
      let (p', r) = accept server_end validate t p in record p' { accepted = some r }

  abbrev pub deliver : Pipe S → Pipe S × WireResult WireFrame
  deliver p = elim p.to_client [
    | [] ↦ (p, err end_of_stream)
    | f ∷ fs ↦ (record p { to_client = fs }, ok f)
  ]

  abbrev pub client_end : Validate → S → Conn (Pipe S)
  client_end validate t = record {
    write_frame = λ f p.
        if p.server_closed
        then (p, err write_failed)
        else (record p { to_server = p.to_server ++ (f ∷ []) }, ok tt);
    read_frame = λ p. deliver (run_server validate t p);
    close_conn = λ p. record p { client_closed = true };
  }

  -- The pipe after a handshake that succeeded, and after one that the validation refused.
  abbrev pub opened : Handshake S → Pipe S
  opened r = record new_pipe { accepted = some r }

  abbrev pub shut : Handshake S → Pipe S
  shut r = record new_pipe { server_closed = true; client_closed = true; accepted = some r }

  abbrev pub asked : Bytes → Bytes → Pipe S
  asked session_id token = record new_pipe { to_server = hello_frame session_id token ∷ [] }

  run_server-welcome :
      (validate : Validate) (session_id token : Bytes) (t : S)
      → is_empty session_id ≡ false
      → validated validate session_id token ≡ none
      → run_server validate t (asked session_id token)
        ≡ record (opened (established session_id (start_peer 0 t))) {
          to_client = hello_ok_frame session_id ∷ [];
        }
  unfolding run_server accept_hello is_hello
  run_server-welcome validate session_id token t named e = rw (named, e)

  run_server-refusal :
      (validate : Validate) (session_id token : Bytes) (t : S) (text : Bytes)
      → is_empty session_id ≡ false
      → validated validate session_id token ≡ some text
      → run_server validate t (asked session_id token) ≡ record new_pipe {
        to_client = refusal_frame 0 text ∷ [];
        server_closed = true;
        accepted = some (failed (refused text));
      }
  unfolding run_server accept_hello is_hello
  run_server-refusal validate session_id token t text named e = rw (named, e)

  -- Over a pipe in memory, which delivers every frame and does not fail, the handshake for a session
  -- that is named starts a peer on both ends if the validation accepts the session and the token: both
  -- have that session, ids from 1 on the connecting end and from 0 on the accepting one, and nothing
  -- left to read. If the validation refuses them, no end has a peer, both are closed, and the text of
  -- the error reaches the connecting end.
  pub handshake_agrees :
      (validate : Validate) (session_id token : Bytes) (s t : S)
      → is_empty session_id ≡ false
      → (validated validate session_id token ≡ none
          → connect (client_end validate t) session_id token s new_pipe ≡ (
            opened (established session_id (start_peer 0 t)),
            established session_id (start_peer 1 s),
          ))
        × ((text : Bytes)
            → validated validate session_id token ≡ some text
            → connect (client_end validate t) session_id token s new_pipe ≡ (
              shut (failed (refused text)),
              failed (if is_empty text then unexpected frame_response else refused text),
            ))
  unfolding connect connect_response is_hello_ok
  handshake_agrees validate session_id token s t named = (
    (λ e.
        let ran = run_server-welcome validate session_id token t named e in
        rw (named, ran, connect_response, ran)),
    (λ text e.
        let ran = run_server-refusal validate session_id token t text named e in
        rw (named, ran, connect_response, ran)),
  )
