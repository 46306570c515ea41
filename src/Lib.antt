-- ===== src/Lib.antt =====
-- sshx wraps ssh: it shares one OpenSSH master between commands, gives each target a loopback address
-- and a domain name on the user's machine, and forwards the ports that listen on the remote side.
-- This library models the parts of the program that decide something, as functions on values, and
-- proves what makes them correct.
--
-- The parts, and where they are:
--   Sshcompat  internal/sshcompat/parse.go: the command line of ssh, `Parse` and `InsertBeforeTarget`.
--     Grammar gives the command lines as a relation, which Parse and Insert refer to.
--   Identity   internal/identity/identity.go: `ConfigProbeArgs` and `ResolveTarget`. The output of
--     `ssh -G` is an argument.
--   Forward    internal/forward: Control has control.go, the arguments of an OpenSSH control operation;
--     Manager has forward.go, the table of forwards. `Ensure` takes the lock twice; what others do
--     between is an argument, and the runs of ssh and the listeners are a list of effects.
--   Domain     internal/domain/domain.go: the names of targets; Domain.Dns has the DNS responder.
--   Loopback   internal/loopback/pool.go: the addresses of targets.
--   Locald     internal/locald/locald.go, server_target.go (Target) and server_session.go (Session):
--     the daemon that has the targets, the leases on them, and a forward manager and a domain name for
--     each. Session.Runs has the steps of its handlers in any order. A step goes from one take of the lock
--     to its release; a handler that takes it more often without another one in between is a step of
--     its own beside the steps of its parts.
--   Ports      internal/ports: which listening sockets are forwarded.
--   Bridge     internal/bridge: Ports has ports.go, which ports the server announces to its clients;
--     Clients has the clients of bridge.go, and how a command finds one; Connections has the hello and
--     the frames of a connection, and the leases of clients; Endpoint has client.go, the client that
--     runs commands and the requester; Mounts has the mounts of a session in remotefs.go, and Exports
--     what commands make the server export.
--   Protocol   internal/protocol/protocol.go: the frames of the bridge, and their version range.
--   Config     internal/config/config.go: features, the deny list, the host of a target.
--   RemoteFs   internal/remotefs: peer_error.go and types.go, error codes and open flags; Layout has
--     CleanMountPath of layout.go; Backend has backend.go, the exported directory, over the methods of
--     os.Root and os.File in Os and the paths in Paths; Frame has protocol.go; Peer has peer.go, the
--     answer to a request, and Peer.Remote peer_backend.go, the other side; Peer.Handshake has Connect
--     and Accept; Peer.Loop has the requests, the frames that arrive and the end of a peer, and
--     Peer.Loop.Steps its goroutines in any order.
--     Effect has the operations with an error and a state, and Effect.Triple what they preserve.
--   Prelude    shared helpers: Go strings are lists of bytes, Go maps association lists.
--   Tests      the theorems at concrete inputs.
--
-- How they interact: a session request makes a target (Locald.Target), which takes an address
-- (Loopback) and a name (Domain); a forward of the target runs ssh through the transport of one of its
-- leases (Locald.Target, Forward); the arguments of that run are cleaned by Forward.Control, which is
-- proved against the grammar of Sshcompat. A command of the remote side goes from a requester past the
-- server to a client (Bridge.Endpoint, Bridge.Connections); its working directory is an exported
-- directory (RemoteFs.Backend) that the other side mounts through a peer (RemoteFs.Peer).
--
-- Bounds and fuel: `RegisterTarget` loops until it finds a free name; the model searches one round
-- more than there are names, which is shown to be enough. The loop of `parseQName` has as fuel the
-- length of the packet and one round more, which is shown to be enough too. The retries of a command
-- take at most one round for each client and one more, which is enough. The loop that writes a frame
-- has a round for each byte, since each round takes one at least. Ids and handles have the wrap-around
-- of 64 bits; signed numbers that are only passed on are their words. Numbers of the source are
-- natural numbers: ports, indices and counts are not negative in it, and a port is compared with
-- 65535 where the source does. The pool has 64 addresses.
--
-- Not modelled: sockets, processes, timers, files, JSON and YAML, which are parameters where the parts
-- call them; the texts of most errors; the cancellation of a request by the context of its caller, but
-- for the frame that it sends; what a command with a remote file system is sent on with; FUSE; the layouts of exports; the integrations, the aliases of
-- the configuration of ssh, and the command line interface. A loop over a
-- Go map has no fixed order in the source and the order of the list here.
pub mod Prelude
pub mod Sshcompat
pub mod Forward
pub mod Identity
pub mod Protocol
pub mod Loopback
pub mod Ports
pub mod Bridge
pub mod Domain
pub mod Locald
pub mod Config
pub mod RemoteFs
pub mod Tests
