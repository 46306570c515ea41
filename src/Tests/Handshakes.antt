-- ===== src/Tests/Handshakes.antt =====
-- Tests and examples for the handshake of two peers.
use sshx.Prelude.{ℕ, ◌≡◌, refl, none, some, [], if◌then◌else◌, ◌==◌, bytes_eq, nat_eq}
use sshx.Prelude.Text.{Bytes, codes}
use sshx.RemoteFs.Peer.Handshake.{Validate, failed, refused, connect, accept, hello_frame}
use sshx.RemoteFs.Peer.Handshake.Guards.{Ends, accept-Ends, Connects, connect-Connects}
use sshx.RemoteFs.Peer.Handshake.Agreed.{
  new_pipe, server_end, client_end, shut, asked, handshake_agrees,
}

abbrev validate : Validate
validate = some (λ session_id token. if token == codes "t" then none else some (codes "bad token"))

abbrev session : Bytes
session = codes "s"

accept-Ends_example :
    Ends {S = ℕ}
      (server_end {S = ℕ})
      validate
      0
      (hello_frame session (codes "t"))
      (record (asked session (codes "t")) { to_server = [] })
      (accept (server_end {S = ℕ}) validate 0 (asked session (codes "t")))
accept-Ends_example =
    accept-Ends (server_end {S = ℕ}) validate 0 (hello_frame session (codes "t"))
      (asked session (codes "t")) refl

handshake_agrees_example :
    connect {S = ℕ} (client_end {S = ℕ} validate 0) session (codes "u") 1 new_pipe
    ≡ (shut (failed (refused (codes "bad token"))), failed (refused (codes "bad token")))
unfolding sshx.RemoteFs.Peer.Handshake.validated sshx.Prelude.bytes_beq
handshake_agrees_example =
    (handshake_agrees validate session (codes "u") 1 0 refl).1 (codes "bad token") refl

connect-Connects_example :
    Connects {S = ℕ}
      (client_end {S = ℕ} validate 0)
      session
      (codes "t")
      1
      new_pipe
      (connect {S = ℕ} (client_end {S = ℕ} validate 0) session (codes "t") 1 new_pipe)
connect-Connects_example =
    connect-Connects (client_end {S = ℕ} validate 0) session (codes "t") 1 new_pipe refl
