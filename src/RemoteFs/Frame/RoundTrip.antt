-- ===== src/RemoteFs/Frame/RoundTrip.antt =====
-- A frame that has been written is read back, with nothing of what follows it.
use sshx.Prelude.{
  ℕ, zero, suc, ◌<◌, ◌≤◌, ◌≡◌, refl, sym, true, false, not, ◌||◌, some, [], ◌∷◌, ◌++◌, is_empty,
  ◌==◌, nat_eq, leb, length, take, drop, arith, append_assoc, append-nil, take_append_drop,
  length-append, take-append_length, drop-append_length, leb→le,
}
use sshx.Prelude.Text.{Bytes}
use sshx.RemoteFs.Frame.{
  WireFrame, ok, Json, Writer, write_loop, write_all, read_full, read_wire_frame, put_uint32,
  uint32, max_metadata_size, max_data_size, read_data, read_sized,
}

-- `io.Writer`, as it is documented: it takes a front part of what it is given, and says how much.
pub record IsWriter {W : Type 0} (writer : Writer W) (sent : W → Bytes) : Type 0 where
  pub takes : (s : Bytes) (w : W) → (writer s w).1.0 ≤ length s
  pub appends : (s : Bytes) (w : W) → sent (writer s w).0 ≡ sent w ++ take (writer s w).1.0 s

module _ {W : Type 0} (writer : Writer W) (sent : W → Bytes) (h : IsWriter writer sent) where
  write_loop-sent :
      (fuel : ℕ) (s : Bytes) (w : W)
      → (write_loop writer fuel s w).1 ≡ ok tt
      → sent (write_loop writer fuel s w).0 ≡ sent w ++ s
  unfolding write_loop
  write_loop-sent fuel [] w e = sym (append-nil (sent w))
  write_loop-sent zero (c ∷ s) w e = cc
  write_loop-sent (suc fuel) (c ∷ s) w e =
      let n = (writer (c ∷ s) w).1.0 in
      let rest = write_loop-sent fuel (drop n (c ∷ s)) (writer (c ∷ s) w).0 in
      let sent_all : sent (writer (c ∷ s) w).0 ++ drop n (c ∷ s) ≡ sent w ++ c ∷ s = rw (
        h.appends (c ∷ s) w,
        append_assoc (sent w) (take n (c ∷ s)) (drop n (c ∷ s)),
        take_append_drop n (c ∷ s),
      ) in
      ground (arith, rest, sent_all)

  pub write_all-sent :
      (s : Bytes) (w : W)
      → (write_all writer s w).1 ≡ ok tt
      → sent (write_all writer s w).0 ≡ sent w ++ s
  unfolding write_all
  write_all-sent s w e = write_loop-sent (length s) s w e

uint32-put_uint32 : (n : ℕ) (s : Bytes) → n < 4294967296 → uint32 (put_uint32 n ++ s) ≡ n
unfolding uint32 put_uint32
uint32-put_uint32 n s l = omega arith

read_full-append : (xs ys : Bytes) → read_full (length xs) (xs ++ ys) ≡ ok (xs, ys)
unfolding read_full
read_full-append xs ys =
    let fits : leb (length xs) (length (xs ++ ys)) ≡ true = ground (arith, length-append xs ys) in
    rw (fits, take-append_length xs ys, drop-append_length xs ys)

not_zero : (c : ℕ) (s : Bytes) → (length (c ∷ s) == 0) ≡ false
not_zero c s = ground arith

read_data-bytes :
    (frame : WireFrame) (bytes rest : Bytes)
    → read_data (record frame { bytes = [] }) (length bytes) (bytes ++ rest)
      ≡ ok (record frame { bytes = bytes }, rest)
unfolding read_data
read_data-bytes frame [] rest = refl
read_data-bytes frame (c ∷ s) rest = rw (not_zero c s, read_full-append (c ∷ s) rest)

metadata_size_in_range :
    (metadata : Bytes)
    → is_empty metadata ≡ false
    → leb (length metadata) max_metadata_size ≡ true
    → (length metadata == 0 || not (leb (length metadata) max_metadata_size)) ≡ false
metadata_size_in_range [] n m = cc
metadata_size_in_range (c ∷ s) n m = ground arith

sized_read :
    (json : Json) (frame : WireFrame) (metadata rest : Bytes)
    → json.unmarshal metadata ≡ some (record frame { bytes = [] })
    → is_empty metadata ≡ false
    → leb (length metadata) max_metadata_size ≡ true
    → leb (length frame.bytes) max_data_size ≡ true
    → read_sized json (length metadata) (length frame.bytes) (metadata ++ (frame.bytes ++ rest))
      ≡ ok (frame, rest)
unfolding read_sized
sized_read json frame metadata rest u n m d =
    rw (metadata_size_in_range metadata n m, d, read_full-append metadata (frame.bytes ++ rest), u)
      (read_data-bytes frame frame.bytes rest)

-- The two lengths, and the bytes of a frame whose metadata is `metadata`.
unfoldable pub lengths : Bytes → Bytes → Bytes
lengths metadata bytes = put_uint32 (length metadata) ++ put_uint32 (length bytes)

read_lengths :
    (metadata bytes : Bytes)
    → leb (length metadata) max_metadata_size ≡ true
    → leb (length bytes) max_data_size ≡ true
    → (length (lengths metadata bytes) ≡ 8)
      × (uint32 (take 4 (lengths metadata bytes)) ≡ length metadata)
      × (uint32 (drop 4 (lengths metadata bytes)) ≡ length bytes)
unfolding lengths put_uint32 uint32
read_lengths metadata bytes m d = (refl, omega (arith, leb→le _ _ m), omega (arith, leb→le _ _ d))

pub read_wire :
    (json : Json) (frame : WireFrame) (metadata rest : Bytes)
    → json.unmarshal metadata ≡ some (record frame { bytes = [] })
    → is_empty metadata ≡ false
    → leb (length metadata) max_metadata_size ≡ true
    → leb (length frame.bytes) max_data_size ≡ true
    → read_wire_frame json (lengths metadata frame.bytes ++ (metadata ++ (frame.bytes ++ rest)))
      ≡ ok (frame, rest)
unfolding read_wire_frame
read_wire json frame metadata rest u n m d =
    let (eight, em, ed) = read_lengths metadata frame.bytes m d in
    let body = metadata ++ (frame.bytes ++ rest) in
    let head : read_full 8 (lengths metadata frame.bytes ++ body)
        ≡ ok (lengths metadata frame.bytes, body) =
      rw eight at (read_full-append (lengths metadata frame.bytes) body) in
    rw (head, em, ed) (sized_read json frame metadata rest u n m d)
