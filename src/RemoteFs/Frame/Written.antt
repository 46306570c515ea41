-- ===== src/RemoteFs/Frame/Written.antt =====
-- Writing a frame: what is sent can be read back, and how it ends for every size.
use sshx.Prelude.{
  ℕ, zero, suc, ◌<◌, ◌≤◌, ◌≡◌, ◌≢◌, refl, Bool, true, false, ◌&&◌, some, [], ◌∷◌, ◌++◌, is_empty,
  if◌then◌else◌, nat_eq, leb, length, drop, arith, append_assoc, length-drop, Bool-cases, inl, inr,
}
use sshx.Prelude.Text.{Bytes}
use sshx.RemoteFs.Frame.{
  WireFrame, WireError, WireResult, ok, err, frame_too_large, Json, Writer, write_loop, write_all,
  and_then, write_wire_frame, read_wire_frame, max_metadata_size, max_data_size,
}
use sshx.RemoteFs.Frame.RoundTrip.{IsWriter, write_all-sent, lengths, read_wire}

and_then-ok :
    {W : Type 0} (p : W × WireResult (Unit {0})) (next : W → W × WireResult (Unit {0}))
    → (and_then p next).1 ≡ ok tt
    → (p.1 ≡ ok tt) × ((next p.0).1 ≡ ok tt) × (and_then p next ≡ next p.0)
unfolding and_then
and_then-ok (w, ok t) next e = (refl, e, refl)
and_then-ok (w, err x) next e = cc

-- Metadata and data are within their limits.
unfoldable pub fits : Bytes → WireFrame → Bool
fits metadata frame =
    leb (length metadata) max_metadata_size && leb (length frame.bytes) max_data_size

and_then-next :
    {W : Type 0} (p : W × WireResult (Unit {0})) (next : W → W × WireResult (Unit {0}))
    → p.1 ≡ ok tt
    → (next p.0).1 ≡ ok tt
    → (and_then p next).1 ≡ ok tt
unfolding and_then
and_then-next (w, ok t) next e f = f
and_then-next (w, err x) next e f = cc

failed : WireError → WireResult (Unit {0})
failed x = err x

not_ok : (x : WireError) → failed x ≢ ok tt
unfolding failed
not_ok x e = cc

fits_metadata :
    (metadata : Bytes) (frame : WireFrame)
    → fits metadata frame ≡ true
    → leb (length metadata) max_metadata_size ≡ true
unfolding fits
fits_metadata metadata frame f = ground arith

fits_data :
    (metadata : Bytes) (frame : WireFrame)
    → fits metadata frame ≡ true
    → leb (length frame.bytes) max_data_size ≡ true
unfolding fits
fits_data metadata frame f = ground arith

module _ {W : Type 0} (writer : Writer W) where
  -- The three writes.
  parts : Bytes → Bytes → W → W × WireResult (Unit {0})
  parts metadata bytes w =
      and_then (write_all writer (lengths metadata bytes) w)
        (λ w. and_then (write_all writer metadata w) (write_all writer bytes))

  write_wire_frame-cases :
      (json : Json) (frame : WireFrame) (metadata : Bytes) (w : W)
      → json.marshal frame ≡ some metadata
      → write_wire_frame writer json frame w
        ≡ (if fits metadata frame then parts metadata frame.bytes w else (w, err frame_too_large))
  unfolding write_wire_frame parts fits lengths
  write_wire_frame-cases json frame metadata w m =
      elim (Bool-cases (leb (length metadata) max_metadata_size)) [
        | inl a ↦ elim (Bool-cases (leb (length frame.bytes) max_data_size)) [
          | inl b ↦ rw (m, a, b, write_wire_frame)
          | inr b ↦ rw (m, a, b, write_wire_frame)
        ]
        | inr a ↦ rw (m, a, write_wire_frame)
      ]

  module _ (sent : W → Bytes) (h : IsWriter writer sent) where
    parts-sent :
        (metadata bytes : Bytes) (w : W)
        → (parts metadata bytes w).1 ≡ ok tt
        → sent (parts metadata bytes w).0
          ≡ sent w ++ (lengths metadata bytes ++ (metadata ++ bytes))
    unfolding parts
    parts-sent metadata bytes w e =
        let w1 = (write_all writer (lengths metadata bytes) w).0 in
        let w2 = (write_all writer metadata w1).0 in
        let (e1, rest, s1) =
          and_then-ok (write_all writer (lengths metadata bytes) w)
            (λ w. and_then (write_all writer metadata w) (write_all writer bytes)) e in
        let (e2, e3, s2) =
          and_then-ok (write_all writer metadata w1) (write_all writer bytes) rest in
        rw (
          s1,
          s2,
          write_all-sent writer sent h bytes w2 e3,
          write_all-sent writer sent h metadata w1 e2,
          write_all-sent writer sent h (lengths metadata bytes) w e1,
          append_assoc (sent w) (lengths metadata bytes) metadata,
          append_assoc (sent w) (lengths metadata bytes ++ metadata) bytes,
          append_assoc (lengths metadata bytes) metadata bytes,
        )

    -- A frame that was written without an error is on the connection, even if the connection took it
    -- in small pieces, and reading gives it back and leaves what follows. Its metadata must come back
    -- from JSON as they are, and JSON is never empty.
    pub write_wire_frame-read :
        (json : Json) (frame : WireFrame) (metadata : Bytes) (w : W)
        → json.marshal frame ≡ some metadata
        → json.unmarshal metadata ≡ some (record frame { bytes = [] })
        → is_empty metadata ≡ false
        → (write_wire_frame writer json frame w).1 ≡ ok tt
        → (wire : Bytes) × (sent (write_wire_frame writer json frame w).0 ≡ sent w ++ wire)
          × ((rest : Bytes) → read_wire_frame json (wire ++ rest) ≡ ok (frame, rest))
    write_wire_frame-read json frame metadata w m u n e =
        let cases = write_wire_frame-cases json frame metadata w m in
        elim (Bool-cases (fits metadata frame)) [
          | inl f ↦
              let all_parts : write_wire_frame writer json frame w ≡ parts metadata frame.bytes w =
                rw f at cases in
              (
                lengths metadata frame.bytes ++ (metadata ++ frame.bytes),
                rw all_parts (parts-sent metadata frame.bytes w (rw all_parts at e)),
                (λ rest.
                    rw
                      (
                        append_assoc (lengths metadata frame.bytes) (metadata ++ frame.bytes) rest,
                        append_assoc metadata frame.bytes rest,
                      )
                      (read_wire json frame metadata rest u n (fits_metadata metadata frame f)
                        (fits_data metadata frame f))),
              )
          | inr f ↦
              let refused : write_wire_frame writer json frame w ≡ (w, err frame_too_large) =
                rw f at cases in
              absurd (not_ok frame_too_large (unfold failed in rw refused at e))
        ]

  -- Each turn takes something, so the loop ends by itself.
  write_loop-ok :
      ((c : ℕ) (s : Bytes) (w : W)
        → (0 < (writer (c ∷ s) w).1.0) × ((writer (c ∷ s) w).1.1 ≡ false))
      → (fuel : ℕ) (s : Bytes) (w : W) → length s ≤ fuel
      → (write_loop writer fuel s w).1 ≡ ok tt
  unfolding write_loop
  write_loop-ok steady fuel [] w l = refl
  write_loop-ok steady zero (c ∷ s) w l = ground arith
  write_loop-ok steady (suc fuel) (c ∷ s) w l =
      let n = (writer (c ∷ s) w).1.0 in
      let (some_byte, sound) = steady c s w in
      let rest =
        write_loop-ok steady fuel (drop n (c ∷ s)) (writer (c ∷ s) w).0
          (omega (arith, length-drop n (c ∷ s))) in
      ground (arith, rest, some_byte)

  write_all-ok :
      ((c : ℕ) (s : Bytes) (w : W)
        → (0 < (writer (c ∷ s) w).1.0) × ((writer (c ∷ s) w).1.1 ≡ false))
      → (s : Bytes) (w : W) → (write_all writer s w).1 ≡ ok tt
  unfolding write_all
  write_all-ok steady s w = write_loop-ok steady (length s) s w (omega arith)

  -- On a connection that takes some bytes of every write and does not fail, a frame is written if
  -- and only if its metadata and its data are within their limits; else nothing is sent.
  pub write_wire_frame-steady :
      ((c : ℕ) (s : Bytes) (w : W)
        → (0 < (writer (c ∷ s) w).1.0) × ((writer (c ∷ s) w).1.1 ≡ false))
      → (json : Json) (frame : WireFrame) (metadata : Bytes) (w : W)
      → json.marshal frame ≡ some metadata
      → (fits metadata frame ≡ true → (write_wire_frame writer json frame w).1 ≡ ok tt)
        × (fits metadata frame ≡ false
            → write_wire_frame writer json frame w ≡ (w, err frame_too_large))
  unfolding parts
  write_wire_frame-steady steady json frame metadata w m =
      let cases = write_wire_frame-cases json frame metadata w m in
      let w1 = (write_all writer (lengths metadata frame.bytes) w).0 in
      let all_parts : (parts metadata frame.bytes w).1 ≡ ok tt =
        and_then-next (write_all writer (lengths metadata frame.bytes) w) _
          (write_all-ok steady (lengths metadata frame.bytes) w)
          (and_then-next (write_all writer metadata w1) _ (write_all-ok steady metadata w1)
            (write_all-ok steady frame.bytes (write_all writer metadata w1).0)) in
      ((λ f. rw (cases, f) all_parts), (λ f. rw (cases, f)))
