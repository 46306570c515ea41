-- ===== src/RemoteFs/Peer/Handshake/Guards.antt =====
-- What `Accept` and `Connect` have checked before a peer starts.
use sshx.Prelude.{
  ◌≡◌, ◌⊎◌, refl, Bool, true, false, not, ◌&&◌, ◌||◌, is_empty, ◌==◌, nat_eq, arith, Bool-cases,
  Option-cases, inl, inr,
}
use sshx.Prelude.Map.{has}
use sshx.Prelude.Text.{Bytes}
use sshx.RemoteFs.Frame.{WireFrame, WireError, WireResult, ok, err}
use sshx.RemoteFs.Peer.Loop.{start_peer}
use sshx.RemoteFs.Peer.Handshake.{
  Conn, Handshake, HandshakeError, Validate, established, failed, is_hello, validated, accept,
  accept_hello, protocol_version, hello_ok_frame, hello_frame, is_hello_ok, connect,
  connect_response,
}

-- A hello of this version for a session that is accepted.
unfoldable pub is_welcome : Validate → WireFrame → Bool
unfolding is_hello validated
is_welcome validate hello =
    is_hello hello.type
    && not (is_empty hello.session_id)
    && hello.version == protocol_version
    && not (has (validated validate hello.session_id hello.token))

written-cases : (r : WireResult (Unit {0})) → (r ≡ ok tt) ⊎ ((x : WireError) × (r ≡ err x))
written-cases (ok t) = inl refl
written-cases (err x) = inr (x, refl)

module _ {W S : Type 0} (conn : Conn W) (validate : Validate) (s : S) where
  -- A peer has started, with the answer that it was told so.
  pub Started : WireFrame → W → W × Handshake S → Type 0
  Started hello w r =
      (is_welcome validate hello ≡ true)
      × ((conn.write_frame (hello_ok_frame hello.session_id) w).1 ≡ ok tt)
      × (r ≡ (
        (conn.write_frame (hello_ok_frame hello.session_id) w).0,
        established hello.session_id (start_peer 0 s),
      ))

  -- No peer has started, and the connection is closed.
  pub Closed : W × Handshake S → Type 0
  Closed r = (w : W) × (e : HandshakeError) × (r ≡ (conn.close_conn w, failed e))

  unfoldable pub Ends : WireFrame → W → W × Handshake S → Type 0
  Ends hello w r =
      Started hello w r
      ⊎ ((is_welcome validate hello ≡ true
            → (x : WireError) × ((conn.write_frame (hello_ok_frame hello.session_id) w).1 ≡ err x))
          × Closed r)

  accept_hello-cases :
      (hello : WireFrame) (w : W) → Ends hello w (accept_hello conn validate s hello w)
  unfolding accept_hello is_welcome Started Closed Ends
  accept_hello-cases hello w =
      elim (Bool-cases (not (is_hello hello.type) || is_empty hello.session_id)) [
        | inl a ↦ rw a (inr ((λ e. ground arith), (_, _, refl)))
        | inr a ↦ elim (Bool-cases (hello.version == protocol_version)) [
          | inr b ↦ rw (a, b) (inr ((λ e. ground arith), (_, _, refl)))
          | inl b ↦ elim (Option-cases (validated validate hello.session_id hello.token)) [
            | inr (text, c) ↦ rw (a, b, c) (inr ((λ e. ground arith), (_, _, refl)))
            | inl c ↦
                elim (written-cases (conn.write_frame (hello_ok_frame hello.session_id) w).1) [
                  | inl d ↦ rw (a, b, c, d) (inl (ground arith, refl, refl))
                  | inr (x, d) ↦ rw (a, b, c, d) (inr ((λ e. (x, refl)), (_, _, refl)))
                ]
          ]
        ]
      ]

  -- For the hello that it has read, `Accept` starts a peer for the session of the hello if the hello
  -- is of this version, names a session, is accepted by the validation and its answer was written;
  -- else no peer starts and the connection is closed.
  pub accept-Ends :
      (hello : WireFrame) (w : W)
      → (conn.read_frame w).1 ≡ ok hello
      → Ends hello (conn.read_frame w).0 (accept conn validate s w)
  unfolding accept
  accept-Ends hello w e = rw (accept, e) (accept_hello-cases hello (conn.read_frame w).0)

-- An answer that lets the connecting end start a peer.
unfoldable pub is_agreed : WireFrame → Bool
unfolding is_hello_ok
is_agreed response = is_hello_ok response.type && response.version == protocol_version

read-cases :
    (r : WireResult WireFrame) → ((f : WireFrame) × (r ≡ ok f)) ⊎ ((x : WireError) × (r ≡ err x))
read-cases (ok f) = inl (f, refl)
read-cases (err x) = inr (x, refl)

module _ {W S : Type 0} (conn : Conn W) (session_id token : Bytes) (s : S) (w : W) where
  -- The connection behind the hello, and what is read from it.
  abbrev pub asked : W
  asked = (conn.write_frame (hello_frame session_id token) w).0

  unfoldable pub Connects : W × Handshake S → Type 0
  Connects r =
      ((response : WireFrame) × ((conn.write_frame (hello_frame session_id token) w).1 ≡ ok tt)
        × ((conn.read_frame asked).1 ≡ ok response)
        × (is_agreed response ≡ true)
        × (r ≡ ((conn.read_frame asked).0, established session_id (start_peer 1 s))))
      ⊎ (((w2 : W) × (e : HandshakeError) × (r ≡ (conn.close_conn w2, failed e)))
          × (((x : WireError) × ((conn.write_frame (hello_frame session_id token) w).1 ≡ err x))
              ⊎ ((x : WireError) × ((conn.read_frame asked).1 ≡ err x))
              ⊎ ((response : WireFrame) × ((conn.read_frame asked).1 ≡ ok response)
                  × (is_agreed response ≡ false))))

  -- For a session that is named, `Connect` starts a peer if the hello was written and the answer that
  -- was read is `hello.ok` of this version; else no peer starts and the connection is closed, and the
  -- hello was not written, no answer was read, or the answer was another one.
  pub connect-Connects : is_empty session_id ≡ false → Connects (connect conn session_id token s w)
  unfolding Connects connect connect_response is_agreed
  connect-Connects named =
      elim (written-cases (conn.write_frame (hello_frame session_id token) w).1) [
        | inr (x, a) ↦ rw (named, a) (inr ((_, _, refl), inl (x, refl)))
        | inl a ↦ elim (read-cases (conn.read_frame asked).1) [
          | inr (x, b) ↦ rw (named, a, b) (inr ((_, _, refl), inr (inl (x, refl))))
          | inl (response, b) ↦ elim (Bool-cases (is_hello_ok response.type)) [
            | inr c ↦ rw (named, a, b, c) (inr ((_, _, refl), inr (inr (response, refl, (rw c)))))
            | inl c ↦ elim (Bool-cases (response.version == protocol_version)) [
              | inr d ↦
                  rw (named, a, b, c, d)
                    (inr ((_, _, refl), inr (inr (response, refl, (rw (c, d))))))
              | inl d ↦ rw (named, a, b, c, d) (inl (response, refl, refl, (rw (c, d)), refl))
            ]
          ]
        ]
      ]
