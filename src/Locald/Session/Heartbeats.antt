-- ===== src/Locald/Session/Heartbeats.antt =====
-- The loop of a session on the requests that its client sends.
use sshx.Prelude.{◌≡◌, refl, true, false, List, [], ◌∷◌, ◌++◌, ◌==◌, bytes_eq, arith, All}
use sshx.Prelude.Text.{Bytes}
use sshx.Locald.{
  RequestType, Request, Response, heartbeat_ack, request_lease_id, request_compatible,
}
use sshx.Locald.Session.{heartbeat, heartbeats}

-- A heartbeat of the lease, from a client with a compatible protocol.
abbrev pub IsBeat : Bytes → Request → Type 0
IsBeat lease_id beat =
    (beat.kind ≡ RequestType.heartbeat)
    × ((request_lease_id beat == lease_id) ≡ true)
    × (request_compatible beat ≡ true)

abbrev pub acks : List Request → List Response
acks [] = []
acks (beat ∷ beats) = heartbeat_ack beat.sequence ∷ acks beats

heartbeat-IsBeat :
    (lease_id : Bytes) (beat : Request)
    → IsBeat lease_id beat
    → heartbeat lease_id beat ≡ (heartbeat_ack beat.sequence, true)
unfolding heartbeat
heartbeat-IsBeat lease_id beat (k, l, c) = ground arith

-- Each heartbeat of the lease is acknowledged with its sequence number, in order; the first request
-- that is refused gets the refusal, and what the client sends behind it is not read.
pub heartbeats_lem :
    (lease_id : Bytes) (beats rest : List Request) (bad : Request)
    → All (IsBeat lease_id) beats
    → (heartbeat lease_id bad).1 ≡ false
    → (heartbeats lease_id beats ≡ acks beats)
      × (heartbeats lease_id (beats ++ bad ∷ rest) ≡ acks beats ++ (heartbeat lease_id bad).0 ∷ [])
unfolding heartbeats
heartbeats_lem lease_id [] rest bad h refused = (refl, ground arith)
heartbeats_lem lease_id (beat ∷ beats) rest bad (b, h) refused =
    let (all, cut) = heartbeats_lem lease_id beats rest bad h refused in
    let ack = heartbeat-IsBeat lease_id beat b in (ground arith, ground arith)
