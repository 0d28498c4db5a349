-- ===== src/EyBond/Wire.antt =====
-- api/protocols/eybond_dongle.py: the header of eight bytes and the frames that follow it.
-- `struct.pack` raises on a number that does not fit its field, which is `none` here.
use home_assistant_dess_moni.Base.{
  ℕ, zero, suc, ◌+◌, ◌-◌, ◌*◌, ◌/◌, ◌%◌, ◌^◌, ◌<◌, ◌≡◌, ap, ap₂, ◌∙◌, arith, ltb, leb, ◌&&◌,
  if◌then◌else◌, List, [], ◌∷◌, ◌++◌, Option, none, some, length, take, drop, take-append,
  drop-append, length-append,
}

abbrev pub header_size : ℕ
header_size = 8

abbrev pub wire_len_offset : ℕ
wire_len_offset = 6

abbrev pub fc_heartbeat : ℕ
fc_heartbeat = 1

abbrev pub fc_forward2device : ℕ
fc_forward2device = 4

abbrev pub default_devcode : ℕ
default_devcode = 0x0994

pub record EyHeader : Type 0 where
  pub tid : ℕ
  pub devcode : ℕ
  pub wire_len : ℕ
  pub devaddr : ℕ
  pub fcode : ℕ

-- `payload_len`; a negative length stands for no payload, as 0 does.
unfoldable pub payload_len : EyHeader → ℕ
payload_len h = h.wire_len + wire_len_offset - header_size

-- `>H`, for a number below 2 ^ 16
abbrev pub be16 : ℕ → List ℕ
be16 n = n / 2 ^ 8 ∷ n % 2 ^ 8 ∷ []

unfoldable pub encode_header : ℕ → ℕ → ℕ → ℕ → ℕ → Option (List ℕ)
encode_header tid devcode total_len devaddr fcode =
    let wire_len = total_len - wire_len_offset in
    if ltb tid (2 ^ 16)
      && ltb devcode (2 ^ 16)
      && ltb wire_len (2 ^ 16)
      && leb wire_len_offset total_len
      && ltb devaddr (2 ^ 8)
      && ltb fcode (2 ^ 8)
    then some (be16 tid ++ be16 devcode ++ be16 wire_len ++ devaddr ∷ fcode ∷ [])
    else none

unfoldable pub decode_header : List ℕ → Option EyHeader
decode_header (t₁ ∷ t₀ ∷ c₁ ∷ c₀ ∷ w₁ ∷ w₀ ∷ a ∷ f ∷ rest) = some (record {
  tid = t₁ * 2 ^ 8 + t₀;
  devcode = c₁ * 2 ^ 8 + c₀;
  wire_len = w₁ * 2 ^ 8 + w₀;
  devaddr = a;
  fcode = f;
})
decode_header _ = none

-- The header and the payload behind it.
abbrev with_payload : List ℕ → Option (List ℕ) → Option (List ℕ)
with_payload payload none = none
with_payload payload (some head) = some (head ++ payload)

-- `now` is the six bytes of the date and time, year first.
unfoldable pub build_heartbeat : ℕ → List ℕ → ℕ → Option (List ℕ)
unfolding encode_header
build_heartbeat tid now interval =
    let payload = now ++ be16 interval in
    with_payload payload (encode_header tid 0 (header_size + length payload) 1 fc_heartbeat)

unfoldable pub build_forward2device : ℕ → List ℕ → ℕ → ℕ → Option (List ℕ)
unfolding encode_header
build_forward2device tid payload devaddr devcode =
    with_payload payload
      (encode_header tid devcode (header_size + length payload) devaddr fc_forward2device)

-- One round of the read loop of `_handle_session`: `none` where `readexactly` meets the end.
abbrev pub read_payload : List ℕ → Option EyHeader → Option (EyHeader × List ℕ × List ℕ)
read_payload stream none = none
read_payload stream (some h) =
    let rest = drop header_size stream in
    if ltb (length rest) (payload_len h)
    then none
    else some (h, take (payload_len h) rest, drop (payload_len h) rest)

unfoldable pub read_frame : List ℕ → Option (EyHeader × List ℕ × List ℕ)
unfolding decode_header
read_frame stream = read_payload stream (decode_header stream)

abbrev pub Frame : Type 0
Frame = EyHeader × List ℕ

-- The frames that the loop sees before the connection ends; `fuel` bounds their number.
abbrev pub more_frames : (List ℕ → List Frame) → Option (EyHeader × List ℕ × List ℕ) → List Frame
more_frames next none = []
more_frames next (some (h, payload, rest)) = (h, payload) ∷ next rest

unfoldable pub read_frames : ℕ → List ℕ → List Frame
unfolding read_frame
read_frames zero stream = []
read_frames (suc fuel) stream = more_frames (read_frames fuel) (read_frame stream)

abbrev pub frame_bytes : ℕ → ℕ → ℕ → ℕ → ℕ → List ℕ → List ℕ
frame_bytes tid devcode wire_len devaddr fcode payload =
    be16 tid ++ be16 devcode ++ be16 wire_len ++ devaddr ∷ fcode ∷ payload

abbrev pub header_of : ℕ → ℕ → ℕ → ℕ → ℕ → EyHeader
header_of tid devcode wire_len devaddr fcode = record {
  tid = tid;
  devcode = devcode;
  wire_len = wire_len;
  devaddr = devaddr;
  fcode = fcode;
}

be16-join : (n : ℕ) → n / 2 ^ 8 * 2 ^ 8 + n % 2 ^ 8 ≡ n
be16-join n = omega arith

decode-frame_bytes :
    (tid devcode wire_len devaddr fcode : ℕ) (payload : List ℕ)
    → decode_header (frame_bytes tid devcode wire_len devaddr fcode payload)
      ≡ some (header_of tid devcode wire_len devaddr fcode)
unfolding decode_header
decode-frame_bytes tid devcode wire_len devaddr fcode payload =
    ap₂
      (λ (t : ℕ) (c : ℕ).
        some (header_of t c (wire_len / 2 ^ 8 * 2 ^ 8 + wire_len % 2 ^ 8) devaddr fcode))
      (be16-join tid) (be16-join devcode)
    ∙ ap (λ (w : ℕ). some (header_of tid devcode w devaddr fcode)) (be16-join wire_len)

pub read-frame_bytes :
    (tid devcode devaddr fcode : ℕ) (payload rest : List ℕ)
    → read_frame (frame_bytes tid devcode (length payload + 2) devaddr fcode (payload ++ rest))
      ≡ some (header_of tid devcode (length payload + 2) devaddr fcode, payload, rest)
unfolding read_frame payload_len
read-frame_bytes tid devcode devaddr fcode payload rest =
    let w = length payload + 2 in
    let h = header_of tid devcode w devaddr fcode in
    let n : payload_len h ≡ length payload = omega arith in
    ap (read_payload (frame_bytes tid devcode w devaddr fcode (payload ++ rest)))
      (decode-frame_bytes tid devcode w devaddr fcode (payload ++ rest))
    ∙ ground (
      arith,
      length-append payload rest,
      ap (λ (k : ℕ). take k (payload ++ rest)) n,
      ap (λ (k : ℕ). drop k (payload ++ rest)) n,
      take-append payload rest,
      drop-append payload rest,
    )

encode-fits :
    (tid devcode devaddr fcode n : ℕ)
    → tid < 2 ^ 16
    → devcode < 2 ^ 16
    → devaddr < 2 ^ 8
    → fcode < 2 ^ 8
    → n + 2 < 2 ^ 16
    → encode_header tid devcode (header_size + n) devaddr fcode
      ≡ some (be16 tid ++ be16 devcode ++ be16 (n + 2) ++ devaddr ∷ fcode ∷ [])
unfolding encode_header
encode-fits tid devcode devaddr fcode n t c a f l =
    let e : header_size + n - wire_len_offset ≡ n + 2 = omega arith in ground (arith, ap be16 e)

-- A forwarded command that fits its fields is read back from the stream, header and payload, and
-- what follows it is left alone.
pub read-forward :
    (tid devaddr devcode : ℕ) (payload rest : List ℕ)
    → tid < 2 ^ 16
    → devcode < 2 ^ 16
    → devaddr < 2 ^ 8
    → length payload + 2 < 2 ^ 16
    → (frame : List ℕ) × (build_forward2device tid payload devaddr devcode ≡ some frame)
      × (read_frame (frame ++ rest)
          ≡ some
              (header_of tid devcode (length payload + 2) devaddr fc_forward2device, payload, rest))
unfolding build_forward2device
read-forward tid devaddr devcode payload rest t c a p = (
  frame_bytes tid devcode (length payload + 2) devaddr fc_forward2device payload,
  ap (with_payload payload)
      (encode-fits tid devcode devaddr fc_forward2device (length payload) t c a (omega arith) p),
  read-frame_bytes tid devcode devaddr fc_forward2device payload rest,
)
