-- ===== src/Tests/Peers.antt =====
-- Tests and examples for the remote file system between two peers.
use sshx.Prelude.{
  ℕ, ◌+◌, ◌<◌, ◌≤◌, ◌≡◌, refl, Bool, true, false, none, some, List, [], ◌∷◌, ◌++◌, length, take,
  arith, nat_eq, bytes_eq, length-take, if◌then◌else◌, ◌==◌,
}
use sshx.Prelude.Text.{Bytes, codes}
use sshx.Prelude.Map.{lookup}
use sshx.RemoteFs.{no_error, errno, enoent, eperm}
use sshx.RemoteFs.Effect.{Result, Action}
use sshx.RemoteFs.Effect
use sshx.RemoteFs.Os.{Backend, Attr}
use sshx.RemoteFs.Frame.{
  WireFrame, ok, err, Json, Writer, zero_frame, no_attr, no_stat_fs, frame_request,
  write_wire_frame, read_wire_frame, op_lookup, frame_too_large,
}
use sshx.RemoteFs.Frame.RoundTrip.{IsWriter}
use sshx.RemoteFs.Frame.Written.{fits, write_wire_frame-read, write_wire_frame-steady}
use sshx.RemoteFs.Peer.{Exports, PeerOptions}
use sshx.RemoteFs.Peer.Loop.{Peer, start_peer, begin_request, receive, close, written}
use sshx.RemoteFs.Peer.Loop.Steps.{
  begins, receives, registers, Reachable, starts, then_step, Run, stays, goes, register,
}
use sshx.RemoteFs.Peer.Loop.Counted.{IsCounted, Reachable-IsCounted}
use sshx.RemoteFs.Peer.Loop.Ids.{HasIds, Reachable-HasIds}
use sshx.RemoteFs.Peer.Loop.Closed.{IsOver, close_is_final}
use sshx.RemoteFs.Peer.Loop.Drains.{Reachable-drains}

-- A connection that takes at most three bytes at a time.
abbrev slow_writer : Writer Bytes
slow_writer s sent = (sent ++ take 3 s, (length (take 3 s), false))

taken_part : (s w : Bytes) → w ++ take 3 s ≡ w ++ take (length (take 3 s)) s
taken_part [] w = refl
taken_part (a ∷ []) w = refl
taken_part (a ∷ b ∷ []) w = refl
taken_part (a ∷ b ∷ c ∷ s) w = refl

slow_writer-IsWriter : IsWriter slow_writer (λ sent. sent)
slow_writer-IsWriter = record {
  takes = λ s w. omega (arith, length-take 3 s);
  appends = λ s w. taken_part s w;
}

-- A lookup of `a`, and a text that stands for it in JSON.
abbrev lookup_frame : WireFrame
lookup_frame = record zero_frame {
  type = frame_request;
  id = 3;
  op = op_lookup;
  path = codes "a";
  bytes = codes "xyz";
}

abbrev one_text : Json
one_text = record {
  marshal = λ f. some (codes "{}");
  unmarshal = λ s. some (record lookup_frame { bytes = [] });
}

write_wire_frame-read_example :
    (wire : Bytes) × ((write_wire_frame slow_writer one_text lookup_frame (codes "-")).0
      ≡ codes "-" ++ wire)
    × ((rest : Bytes) → read_wire_frame one_text (wire ++ rest) ≡ ok (lookup_frame, rest))
unfolding write_wire_frame
write_wire_frame-read_example =
    write_wire_frame-read slow_writer (λ sent. sent) slow_writer-IsWriter one_text lookup_frame
      (codes "{}") (codes "-") refl refl refl refl

takes_some :
    (c : ℕ) (s : Bytes) (w : Bytes)
    → (0 < (slow_writer (c ∷ s) w).1.0) × ((slow_writer (c ∷ s) w).1.1 ≡ false)
takes_some c s w = (omega arith, refl)

write_wire_frame-steady_example :
    (fits (codes "{}") lookup_frame ≡ true
      → (write_wire_frame slow_writer one_text lookup_frame []).1 ≡ ok tt)
    × (fits (codes "{}") lookup_frame ≡ false
        → write_wire_frame slow_writer one_text lookup_frame [] ≡ ([], err frame_too_large))
write_wire_frame-steady_example =
    write_wire_frame-steady slow_writer takes_some one_text lookup_frame (codes "{}") [] refl

-- An export that counts its calls, and finds nothing but the root.
abbrev counted : {A : Type 0} → Result A → Action ℕ A
counted r n = (n + 1, r)

abbrev found : Bytes → Result Attr
found path =
    if path == codes "." then Effect.ok (record no_attr { size = 7 }) else Effect.err (errno enoent)

abbrev counting : Backend ℕ
counting = record {
  lookup = λ path. counted (found path);
  read_dir = λ path. counted (Effect.ok []);
  open_handle = λ path flags mode. counted (Effect.ok (2, no_attr));
  close = λ handle. counted (Effect.ok tt);
  read = λ handle offset size n. (n + 1, (codes "hi", no_error));
  write = λ handle offset bytes n. (n + 1, (2, no_error));
  fsync = λ handle. counted (Effect.ok tt);
  mkdir = λ path mode. counted (Effect.err (errno eperm));
  unlink = λ path. counted (Effect.err (errno eperm));
  rmdir = λ path. counted (Effect.err (errno eperm));
  rename = λ a b. counted (Effect.ok tt);
  link = λ a b. counted (Effect.ok no_attr);
  symlink = λ a b. counted (Effect.ok no_attr);
  readlink = λ path. counted (Effect.ok (codes "t"));
  setattr = λ path handle change. counted (Effect.ok no_attr);
  stat_fs = counted (Effect.ok no_stat_fs);
  close_backend = counted (Effect.ok tt);
}

abbrev options : PeerOptions ℕ
options = record {
  on_mount = some (λ mount_id path read_only. counted (Effect.ok (codes "/mnt/w")));
  on_unmount = some (λ mount_id. counted (Effect.ok tt));
  message = λ e. codes "failed";
  context_error = λ n. none;
}

abbrev one_export : Exports ℕ
one_export = record {
  backends = (codes "home", counting) ∷ [];
  backend_closed = false;
  mounts = [];
  mount_closed = false;
}

-- The other side asks for `a`.
abbrev asked : Peer ℕ
asked = receive options frame_request written lookup_frame (start_peer 1 0)

abbrev asking : Peer ℕ
asking = begin_request options lookup_frame asked

asking-Reachable : Reachable options 1 0 asking
unfolding receive start_peer
asking-Reachable =
    then_step (then_step starts (receives written lookup_frame)) (begins lookup_frame (omega arith))

Reachable-IsCounted_example : IsCounted asking
Reachable-IsCounted_example = Reachable-IsCounted options 1 0 asking asking-Reachable

Reachable-HasIds_example : HasIds 1 asking
Reachable-HasIds_example = Reachable-HasIds options 1 0 asking (omega arith) asking-Reachable

Reachable-drains_example : (q : Peer ℕ) × Run options asking q × (q.in_flight ≡ 0) × (q.tasks ≡ [])
Reachable-drains_example = Reachable-drains options 1 0 asking asking-Reachable

-- After the close, the other side's request still runs, and an export comes too late.
abbrev late : Peer ℕ
late = register (codes "late") counting (close options asking)

close_is_final_example : IsOver asking.sent late
unfolding begin_request receive start_peer
close_is_final_example =
    close_is_final options asking late refl (goes stays (registers (codes "late") counting))
