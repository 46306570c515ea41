-- ===== src/RemoteFs/Peer/Handshake.antt =====
-- internal/remotefs/peer.go: `Connect` and `Accept`, the two ends of the handshake that a peer starts
-- after. The connection is a parameter.
pub mod Guards
pub mod Agreed
use sshx.Prelude.{
  ℕ, Bool, true, false, not, ◌||◌, Option, none, some, is_empty, if◌then◌else◌, ◌==◌, nat_eq,
}
use sshx.Prelude.Text.{Bytes, codes}
use sshx.RemoteFs.Frame.{
  WireFrame, FrameType, WireError, WireResult, ok, err, zero_frame, frame_hello, frame_hello_ok,
  frame_response, frame_request, frame_cancel, other_frame,
}
use sshx.RemoteFs.Peer.Loop.{Peer, start_peer}

abbrev pub protocol_version : ℕ
protocol_version = 2

-- `writeWireFrame`, `readWireFrame` and `Close` of a connection.
pub record Conn (W : Type 0) : Type 0 where
  pub write_frame : WireFrame → W → W × WireResult (Unit {0})
  pub read_frame : W → W × WireResult WireFrame
  pub close_conn : W → W

pub data HandshakeError : Type 0 where
  session_required version_changed invalid_hello : HandshakeError
  wire_failed : WireError → HandshakeError
  refused : Bytes → HandshakeError
  unexpected : FrameType → HandshakeError
  version_mismatch : ℕ → HandshakeError

-- A peer with its session, or the error.
pub data Handshake (S : Type 0) : Type 0 where
  established : Bytes → Peer S → Handshake S
  failed : HandshakeError → Handshake S

unfoldable pub is_hello : FrameType → Bool
is_hello frame_hello = true
is_hello kind = false

unfoldable pub is_hello_ok : FrameType → Bool
is_hello_ok frame_hello_ok = true
is_hello_ok kind = false

abbrev pub hello_frame : Bytes → Bytes → WireFrame
hello_frame session_id token = record zero_frame {
  type = frame_hello;
  version = protocol_version;
  session_id = session_id;
  token = token;
}

abbrev pub hello_ok_frame : Bytes → WireFrame
hello_ok_frame session_id = record zero_frame {
  type = frame_hello_ok;
  version = protocol_version;
  session_id = session_id;
}

-- The answers that refuse a hello.
abbrev pub refusal_frame : ℕ → Bytes → WireFrame
refusal_frame version text = record zero_frame {
  type = frame_response;
  version = version;
  error = text;
}

-- The `validate` of `Accept`, which may be missing: the text of its error, and none if it accepts.
abbrev pub Validate : Type 0
Validate = Option (Bytes → Bytes → Option Bytes)

unfoldable pub validated : Validate → Bytes → Bytes → Option Bytes
validated none session_id token = none
validated (some validate) session_id token = validate session_id token

module _ {W S : Type 0} (conn : Conn W) where
  abbrev pub give_up : HandshakeError → W → W × Handshake S
  give_up e w = (conn.close_conn w, failed e)

  -- What `Connect` makes of the response.
  unfoldable pub connect_response : Bytes → S → WireFrame → W → W × Handshake S
  unfolding is_hello_ok
  connect_response session_id s response w =
      if not (is_hello_ok response.type)
      then give_up
          (if is_empty response.error then unexpected response.type else refused response.error) w
      else if not (response.version == protocol_version)
      then give_up (version_mismatch response.version) w
      else (w, established session_id (start_peer 1 s))

  unfoldable pub connect : Bytes → Bytes → S → W → W × Handshake S
  unfolding connect_response
  connect session_id token s w =
      if is_empty session_id
      then (w, failed session_required)
      else let (w1, written) = conn.write_frame (hello_frame session_id token) w in
        elim written [
          | err e ↦ give_up (wire_failed e) w1
          | ok _ ↦
              let (w2, answer) = conn.read_frame w1 in
              elim answer [
                | err e ↦ give_up (wire_failed e) w2
                | ok response ↦ connect_response session_id s response w2
              ]
        ]

  -- A refusal is sent, whether that succeeds or not, and the connection is closed.
  abbrev pub refuse : ℕ → Bytes → HandshakeError → W → W × Handshake S
  refuse version text e w = give_up e (conn.write_frame (refusal_frame version text) w).0

  -- What `Accept` makes of the hello.
  unfoldable pub accept_hello : Validate → S → WireFrame → W → W × Handshake S
  unfolding is_hello validated
  accept_hello validate s hello w =
      if not (is_hello hello.type) || is_empty hello.session_id
      then refuse 0 (codes "invalid remote fs hello") invalid_hello w
      else if not (hello.version == protocol_version)
      then refuse protocol_version (codes "remote fs protocol version changed") version_changed w
      else elim (validated validate hello.session_id hello.token) [
        | some text ↦ refuse 0 text (refused text) w
        | none ↦
            let (w1, written) = conn.write_frame (hello_ok_frame hello.session_id) w in
            elim written [
              | err e ↦ give_up (wire_failed e) w1
              | ok _ ↦ (w1, established hello.session_id (start_peer 0 s))
            ]
      ]

  unfoldable pub accept : Validate → S → W → W × Handshake S
  unfolding accept_hello
  accept validate s w =
      let (w1, hello) = conn.read_frame w in
      elim hello [
        | err e ↦ give_up (wire_failed e) w1
        | ok frame ↦ accept_hello validate s frame w1
      ]
