-- ===== src/Pi18/Request.antt =====
-- The request frames of `build_request_frame`, as a device reads them.
use home_assistant_dess_moni.Base.{
  ℕ, ◌+◌, ◌-◌, ◌<◌, ◌≡◌, refl, ap, sym, ◌∙◌, arith, true, List, [], ◌∷◌, ◌++◌, append_assoc, length,
  take, drop, length-append, take-append,
}
use home_assistant_dess_moni.Base.Text.{Text}
use home_assistant_dess_moni.Base.Decimal.{padded, read_digits, read-padded, length-padded}
use home_assistant_dess_moni.Crc.{crc16_xmodem_bytes}
use home_assistant_dess_moni.Crc.Frame.{validate_pi18_response}
use home_assistant_dess_moni.Crc.Accept.{validate_pi18-accepts}
use home_assistant_dess_moni.Pi18.Frame.{native_command, request_head, build_request_frame}

-- What a device gets from a frame: the number in its header, what stands behind the header, and the
-- frame without its last byte.
pub record Envelope : Type 0 where
  pub declared : ℕ
  pub rest : List ℕ
  pub summed : List ℕ

abbrev pub open_frame : List ℕ → Envelope
open_frame frame = record {
  declared = read_digits 0 (take 3 (drop 2 frame));
  rest = drop 5 frame;
  summed = take (length frame - 1) frame;
}

-- The same for a header of three characters and any checksum.
parts_of :
    (nnn body crc : List ℕ)
    → length nnn ≡ 3
    → let head = b'^' ∷ b'P' ∷ (nnn ++ body) in
      let e = open_frame ((head ++ crc) ++ 0x0d ∷ []) in
      (e.declared ≡ read_digits 0 nnn)
      × (e.rest ≡ (body ++ crc) ++ 0x0d ∷ [])
      × (e.summed ≡ head ++ crc)
parts_of (a ∷ b ∷ c ∷ []) body crc h =
    let head = b'^' ∷ b'P' ∷ a ∷ b ∷ c ∷ body in
    let n : length ((head ++ crc) ++ 0x0d ∷ []) - 1 ≡ length (head ++ crc) =
      omega (arith, length-append (head ++ crc) (0x0d ∷ [])) in
    (
      refl,
      refl,
      ap (λ (k : ℕ). take k ((head ++ crc) ++ 0x0d ∷ [])) n ∙ take-append (head ++ crc) (0x0d ∷ []),
    )
parts_of [] body crc h = absurd (omega arith)
parts_of (a ∷ []) body crc h = absurd (omega arith)
parts_of (a ∷ b ∷ []) body crc h = absurd (omega arith)
parts_of (a ∷ b ∷ c ∷ d ∷ rest) body crc h = absurd (omega arith)

length-crc : (bytes : List ℕ) → length (crc16_xmodem_bytes bytes) ≡ 2
unfolding crc16_xmodem_bytes
length-crc bytes = refl

length-request_head : (body : Text) → 0 < length (request_head body)
unfolding request_head
length-request_head body = omega arith

module _ (body : Text) where
  crc : List ℕ
  crc = crc16_xmodem_bytes (request_head body)

  parts_of_frame :
      length body < 997
      → let e = open_frame ((request_head body ++ crc) ++ 0x0d ∷ []) in
        (e.declared ≡ length body + 3)
        × (e.rest ≡ (body ++ crc) ++ 0x0d ∷ [])
        × (e.summed ≡ request_head body ++ crc)
  unfolding request_head
  parts_of_frame h =
      let (n, r, t) =
        parts_of (padded 3 (length body + 3)) body crc
          (length-padded 2 (length body + 3) (omega arith)) in
      (n ∙ read-padded 3 (length body + 3), r, t)

  length-rest : length ((body ++ crc) ++ 0x0d ∷ []) ≡ length body + 3
  unfolding crc
  length-rest = omega (
    arith,
    length-append (body ++ crc) (0x0d ∷ []),
    length-append body crc,
    length-crc (request_head body),
  )

  head-accepted : validate_pi18_response (request_head body ++ crc) ≡ (true, request_head body)
  unfolding crc
  head-accepted =
      let some_head = length-request_head body in
      ground (
        arith,
        validate_pi18-accepts (request_head body) crc some_head (length-crc (request_head body)),
      )

-- The frame of a command whose native body has fewer than 997 characters: the number in the header is
-- that of the bytes behind it, these begin with the body, and the validator accepts the frame without
-- its CR, with its checksum and the header in front of the body.
pub frame-declared :
    (command : Text)
    → let body = native_command command in
      let e = open_frame (build_request_frame command) in
      length body < 997
      → (e.declared ≡ length e.rest)
        × (take (length body) e.rest ≡ body)
        × (validate_pi18_response e.summed ≡ (true, request_head body))
unfolding build_request_frame crc
frame-declared command h =
    let body = native_command command in
    let (n, r, t) = parts_of_frame body h in
    (
      n ∙ sym (ap length r ∙ length-rest body),
      ap (take (length body)) (r ∙ append_assoc body (crc body) (0x0d ∷ []))
          ∙ take-append body (crc body ++ 0x0d ∷ []),
      ap validate_pi18_response t ∙ head-accepted body,
    )
