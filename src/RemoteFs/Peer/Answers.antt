-- ===== src/RemoteFs/Peer/Answers.antt =====
-- How the results of a backend look on the other side of the connection.
use sshx.Prelude.{ℕ, ◌≡◌, refl, List, [], bytes_eq}
use sshx.Prelude.Text.{Bytes}
use sshx.RemoteFs.{Error, no_error, error_code_of}
use sshx.RemoteFs.Effect.{Result, ok, err}
use sshx.RemoteFs.Os.{Attr, DirEntry, StatFs}
use sshx.RemoteFs.Frame.{WireFrame, no_attr, no_stat_fs}
use sshx.RemoteFs.Peer.{
  PeerOptions, attr_frame, unit_frame, error_frame, entries_frame, open_frame, target_frame,
  stat_fs_frame, read_frame, write_frame,
}
use sshx.RemoteFs.Peer.Remote.{error_of_answer, answer, taken}

module _ (message : Error → Bytes) where
  -- An error, as it is seen on the other side.
  unfoldable pub across : Error → Error
  across no_error = no_error
  across e = error_of_answer (error_code_of e) (message e)

  -- A result, as it is seen on the other side.
  unfoldable pub seen : {A : Type 0} → A → Result A → Result A
  unfolding across
  seen a (ok x) = ok x
  seen a (err e) = taken a (across e)

  unfoldable pub seen_both : {A : Type 0} → A → A × Error → A × Error
  unfolding across
  seen_both a (x, no_error) = (x, no_error)
  seen_both a (x, e) = (a, across e)

module _ {S : Type 0} (opts : PeerOptions S) where
  -- What the other side makes of a response.
  unfoldable pub read_answer : {A : Type 0} → (WireFrame → A) → WireFrame → Result A
  unfolding taken answer
  read_answer field frame = taken (field frame) (answer frame).1

  pub unit-seen :
      (r : Result (Unit {0})) → read_answer (λ _. tt) (unit_frame opts r) ≡ seen opts.message tt r
  unfolding read_answer unit_frame seen
  unit-seen (ok tt) = refl
  unit-seen (err no_error) = refl
  unit-seen (err e) = refl

  pub attr-seen :
      (r : Result Attr)
      → read_answer (λ f. f.attr) (attr_frame opts r) ≡ seen opts.message no_attr r
  unfolding read_answer attr_frame error_frame seen across
  attr-seen (ok r) = refl
  attr-seen (err no_error) = refl
  attr-seen (err e) = refl

  pub entries-seen :
      (r : Result (List DirEntry))
      → read_answer (λ f. f.entries) (entries_frame opts r) ≡ seen opts.message [] r
  unfolding read_answer attr_frame error_frame seen across
  entries-seen (ok r) = refl
  entries-seen (err no_error) = refl
  entries-seen (err e) = refl

  pub open-seen :
      (r : Result (ℕ × Attr))
      → read_answer (λ f. (f.handle, f.attr)) (open_frame opts r) ≡ seen opts.message (0, no_attr) r
  unfolding read_answer attr_frame error_frame seen across
  open-seen (ok r) = refl
  open-seen (err no_error) = refl
  open-seen (err e) = refl

  pub target-seen :
      (r : Result Bytes)
      → read_answer (λ f. f.target) (target_frame opts r) ≡ seen opts.message [] r
  unfolding read_answer attr_frame error_frame seen across
  target-seen (ok r) = refl
  target-seen (err no_error) = refl
  target-seen (err e) = refl

  pub stat_fs-seen :
      (r : Result StatFs)
      → read_answer (λ f. f.stat_fs) (stat_fs_frame opts r) ≡ seen opts.message no_stat_fs r
  unfolding read_answer attr_frame error_frame seen across
  stat_fs-seen (ok r) = refl
  stat_fs-seen (err no_error) = refl
  stat_fs-seen (err e) = refl

  unfoldable pub read_both : {A : Type 0} → (WireFrame → A) → WireFrame → A × Error
  unfolding answer
  read_both field frame = (field frame, (answer frame).1)

  pub read-seen :
      (r : Bytes × Error)
      → read_both (λ f. f.bytes) (read_frame opts r) ≡ seen_both opts.message [] r
  unfolding read_both error_frame seen_both
  read-seen (bytes, no_error) = refl
  read-seen (bytes, e) = refl

  pub write-seen :
      (r : ℕ × Error) → read_both (λ f. f.size) (write_frame opts r) ≡ seen_both opts.message 0 r
  unfolding read_both error_frame seen_both
  write-seen (n, no_error) = refl
  write-seen (n, e) = refl
