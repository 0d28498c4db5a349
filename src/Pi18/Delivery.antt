-- ===== src/Pi18/Delivery.antt =====
-- What reaches the decoder of a PI18 answer, however the connection cuts it up.
use home_assistant_dess_moni.Base.{
  ℕ, ◌-◌, ◌<◌, ◌≡◌, ◌≢◌, refl, ap, sym, ◌∙◌, arith, Bool, true, ◌||◌, List, [], ◌∷◌, ◌++◌,
  append-nil, append_assoc, none, some, All, length, length-append, take-append, if◌then◌else◌,
  nat_eq, list_eq, list_beq_iff,
}
use home_assistant_dess_moni.Base.Text.{Text}
use home_assistant_dess_moni.Base.Int.{ℤ}
use home_assistant_dess_moni.Crc.{crc16_xmodem_bytes}
use home_assistant_dess_moni.Crc.Accept.{validate_pi18-accepts}
use home_assistant_dess_moni.Pi18.Frame.{
  native_command, before_cr, without_crc, without_header, strip_pi18_frame,
}
use home_assistant_dess_moni.Pi18.Respond.{decode_pi18_response, decode_payload, payload_text}
use home_assistant_dess_moni.Pi18.Transport.{
  Pi18FrameCollector, Answer, new_collector, has_cr, answer_of, data_received, receive_all,
  result_of, query_pi18,
}

-- `b"".join(chunks)`
abbrev pub concat : List (List ℕ) → List ℕ
concat [] = []
concat (bytes ∷ chunks) = bytes ++ concat chunks

-- The answer to a connection that has delivered these bytes in one piece.
abbrev pub answer_to : Bool → List ℕ → Answer
answer_to strict_crc bytes = if has_cr bytes then some (answer_of strict_crc bytes) else none

has_cr-append : (xs ys : List ℕ) → has_cr (xs ++ ys) ≡ (has_cr xs || has_cr ys)
unfolding has_cr
has_cr-append [] ys = refl
has_cr-append (x ∷ xs) ys = ground (arith, has_cr-append xs ys)

before_cr-append : (xs ys : List ℕ) → has_cr xs ≡ true → before_cr (xs ++ ys) ≡ before_cr xs
unfolding has_cr before_cr
before_cr-append [] ys h = ground arith
before_cr-append (x ∷ xs) ys h = ground (arith, before_cr-append xs ys)

answer_to-append :
    (strict_crc : Bool) (xs ys : List ℕ)
    → has_cr xs ≡ true
    → answer_to strict_crc (xs ++ ys) ≡ answer_to strict_crc xs
unfolding answer_of
answer_to-append strict_crc xs ys h = rw (has_cr-append xs ys, before_cr-append xs ys h, h) refl

received-fut :
    (strict_crc : Bool) (c : Pi18FrameCollector) (bytes : List ℕ)
    → c.fut ≡ answer_to strict_crc c.buffer
    → (data_received strict_crc c bytes).fut ≡ answer_to strict_crc (c.buffer ++ bytes)
unfolding data_received
received-fut strict_crc c bytes h =
    ground (arith, has_cr-append c.buffer bytes, answer_to-append strict_crc c.buffer bytes)

received-buffer :
    (strict_crc : Bool) (c : Pi18FrameCollector) (bytes : List ℕ)
    → (data_received strict_crc c bytes).buffer ≡ c.buffer ++ bytes
unfolding data_received
received-buffer strict_crc c bytes = ground arith

receive_from :
    (strict_crc : Bool) (c : Pi18FrameCollector) (chunks : List (List ℕ))
    → c.fut ≡ answer_to strict_crc c.buffer
    → (receive_all strict_crc c chunks).fut ≡ answer_to strict_crc (c.buffer ++ concat chunks)
unfolding receive_all
receive_from strict_crc c [] h = h ∙ ap (answer_to strict_crc) (sym (append-nil c.buffer))
receive_from strict_crc c (bytes ∷ chunks) h =
    let next = data_received strict_crc c bytes in
    let e = received-buffer strict_crc c bytes in
    receive_from strict_crc next chunks
      (received-fut strict_crc c bytes h ∙ ap (answer_to strict_crc) (sym e))
    ∙ ap (λ (b : List ℕ). answer_to strict_crc (b ++ concat chunks)) e
    ∙ ap (answer_to strict_crc) (append_assoc c.buffer bytes (concat chunks))

-- The result of a query depends on the bytes that the connection delivers, and not on how it cuts
-- them into chunks: it is that of all bytes in one chunk.
pub query-concat :
    (ratio_text : ℤ → ℤ → Text) (strict_crc : Bool) (command : Text) (chunks : List (List ℕ))
    → query_pi18 ratio_text strict_crc command chunks
      ≡ query_pi18 ratio_text strict_crc command (concat chunks ∷ [])
unfolding query_pi18 has_cr
query-concat ratio_text strict_crc command chunks = ap (result_of ratio_text command) (
    receive_from strict_crc new_collector chunks refl
    ∙ sym (
        receive_from strict_crc new_collector (concat chunks ∷ []) refl
        ∙ ap (answer_to strict_crc) (append-nil (concat chunks))))

abbrev pub IsFree : List ℕ → Type 0
IsFree = All (λ c. c ≢ 0x0d)

has_cr-end : (xs : List ℕ) → has_cr (xs ++ 0x0d ∷ []) ≡ true
unfolding has_cr
has_cr-end [] = refl
has_cr-end (x ∷ xs) = ground (arith, has_cr-end xs)

before_cr-free : (xs : List ℕ) → IsFree xs → before_cr (xs ++ 0x0d ∷ []) ≡ xs
unfolding before_cr
before_cr-free [] h = refl
before_cr-free (x ∷ xs) h = ground (arith, before_cr-free xs h.1)

IsFree-append : (xs ys : List ℕ) → IsFree xs → IsFree ys → IsFree (xs ++ ys)
IsFree-append [] ys h k = k
IsFree-append (x ∷ xs) ys h k = (h.0, IsFree-append xs ys h.1 k)

length-crc : (bytes : List ℕ) → length (crc16_xmodem_bytes bytes) ≡ 2
unfolding crc16_xmodem_bytes
length-crc bytes = refl

answer_to-frame :
    (strict_crc : Bool) (head : List ℕ)
    → 0 < length head
    → IsFree (head ++ crc16_xmodem_bytes head)
    → answer_to strict_crc ((head ++ crc16_xmodem_bytes head) ++ 0x0d ∷ [])
      ≡ some (some ((head ++ crc16_xmodem_bytes head) ++ 0x0d ∷ []))
unfolding answer_of
answer_to-frame strict_crc head p free =
    let body = head ++ crc16_xmodem_bytes head in
    let v = validate_pi18-accepts head (crc16_xmodem_bytes head) p (length-crc head) in
    rw (has_cr-end body, before_cr-free body free) (ground (arith, v))

without_crc-append : (head crc : List ℕ) → length crc ≡ 2 → without_crc (head ++ crc) ≡ head
unfolding without_crc
without_crc-append head crc h =
    let e : length (head ++ crc) - 2 ≡ length head = omega (arith, length-append head crc) in
    rw (e, take-append head crc) (ground (arith, length-append head crc))

-- `^D`, the three characters of the length, and the payload.
abbrev pub response_head : List ℕ → List ℕ → List ℕ
response_head nnn payload = b'^' ∷ b'D' ∷ (nnn ++ payload)

without_header-head :
    (nnn payload : List ℕ) → length nnn ≡ 3 → without_header (response_head nnn payload) ≡ payload
unfolding without_header
without_header-head (a ∷ b ∷ c ∷ []) payload h = ground arith
without_header-head [] payload h = ground arith
without_header-head (a ∷ []) payload h = ground arith
without_header-head (a ∷ b ∷ []) payload h = ground arith
without_header-head (a ∷ b ∷ c ∷ d ∷ rest) payload h = ground arith

strip-frame :
    (nnn payload crc : List ℕ)
    → length nnn ≡ 3
    → length crc ≡ 2
    → IsFree (response_head nnn payload ++ crc)
    → strip_pi18_frame ((response_head nnn payload ++ crc) ++ 0x0d ∷ []) ≡ payload
unfolding strip_pi18_frame
strip-frame nnn payload crc h k free =
    let head = response_head nnn payload in
    rw (before_cr-free (head ++ crc) free, without_crc-append head crc k)
      (without_header-head nnn payload h)

-- A payload that is not blank, in the envelope `^Dnnn<payload><crc>` with its checksum, is decoded
-- by the decoder of the command, from the bytes of the payload alone, however the frame and its final CR
-- are cut into chunks, with a strict checksum or without. Neither the length, the payload nor the two
-- bytes of the checksum may have a CR.
pub query-frame :
    (ratio_text : ℤ → ℤ → Text) (strict_crc : Bool) (command : Text) (nnn payload : List ℕ)
    (chunks : List (List ℕ))
    → length nnn ≡ 3
    → payload_text payload ≢ []
    → IsFree (response_head nnn payload)
    → IsFree (crc16_xmodem_bytes (response_head nnn payload))
    → let head = response_head nnn payload in
      concat chunks ≡ (head ++ crc16_xmodem_bytes head) ++ 0x0d ∷ []
      → query_pi18 ratio_text strict_crc command chunks
        ≡ decode_payload ratio_text (native_command command) (payload_text payload)
unfolding query_pi18 result_of decode_pi18_response has_cr
query-frame ratio_text strict_crc command nnn payload chunks h shown free free_crc e =
    let head = response_head nnn payload in
    let crc = crc16_xmodem_bytes head in
    let fr = IsFree-append head crc free free_crc in
    let s = strip-frame nnn payload crc h (length-crc head) fr in
    rw
      (
        receive_from strict_crc new_collector chunks refl,
        e,
        answer_to-frame strict_crc head (omega arith) fr,
        s,
      )
      (ground (arith, list_beq_iff (payload_text payload) []))
