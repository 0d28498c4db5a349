-- ===== src/EyBond/Frames.antt =====
-- The read loop of a session sees the frames that a dongle sends, one after the other.
use home_assistant_dess_moni.Base.{
  ℕ, zero, suc, ◌+◌, ◌≤◌, ◌≡◌, refl, ap, ◌∙◌, arith, List, [], ◌∷◌, ◌++◌, map, length,
}
use home_assistant_dess_moni.EyBond.Wire.{
  Frame, frame_bytes, header_of, read_frame, read_frames, more_frames, decode_header,
  read-frame_bytes,
}

-- The parts of a frame: number, device code, address, function code and payload.
pub record Packet : Type 0 where
  pub tid : ℕ
  pub devcode : ℕ
  pub devaddr : ℕ
  pub fcode : ℕ
  pub payload : List ℕ

abbrev pub wire_len_of : Packet → ℕ
wire_len_of p = length p.payload + 2

abbrev pub stream_of : List Packet → List ℕ
stream_of [] = []
stream_of (p ∷ packets) =
    frame_bytes p.tid p.devcode (wire_len_of p) p.devaddr p.fcode (p.payload ++ stream_of packets)

abbrev pub frame_of : Packet → Frame
frame_of p = (header_of p.tid p.devcode (wire_len_of p) p.devaddr p.fcode, p.payload)

read_frames_end : (fuel : ℕ) → read_frames fuel [] ≡ []
unfolding read_frames read_frame decode_header
read_frames_end zero = refl
read_frames_end (suc fuel) = refl

-- A stream of whole frames is read frame by frame, with nothing lost between them. As many rounds as
-- there are frames are enough.
pub read_frames-stream_of :
    (packets : List Packet) (fuel : ℕ)
    → length packets ≤ fuel
    → read_frames fuel (stream_of packets) ≡ map frame_of packets
unfolding read_frames
read_frames-stream_of [] fuel h = read_frames_end fuel
read_frames-stream_of (p ∷ packets) zero h = absurd (omega arith)
read_frames-stream_of (p ∷ packets) (suc fuel) h =
    ap (more_frames (read_frames fuel))
      (read-frame_bytes p.tid p.devcode p.devaddr p.fcode p.payload (stream_of packets))
    ∙ ap (λ (t : List Frame). frame_of p ∷ t) (read_frames-stream_of packets fuel (omega arith))
