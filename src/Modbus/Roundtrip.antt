-- ===== src/Modbus/Roundtrip.antt =====
-- What a device answers, described independently of the parser, and what the parser makes of it.
use mathlib.Core.Path.{subst}
use home_assistant_dess_moni.Base.{
  ℕ, zero, suc, ◌+◌, ◌*◌, ◌/◌, ◌%◌, ◌^◌, ◌<◌, ◌≤◌, ◌≡◌, refl, ap, ap₂, sym, ◌∙◌, arith, bit_or, min,
  List, [], ◌∷◌, ◌++◌, Option, none, some, length, take, drop, get_or, All, false, length-append,
  take-append, drop-append, Option-cases, inl, inr,
}
use home_assistant_dess_moni.Base.Join.{or_fields, or_fields_swap}
use home_assistant_dess_moni.Crc.{crc16_modbus}
use home_assistant_dess_moni.Modbus.Framing.{
  ok, word_bytes, with_crc, registers, parse_read_holding_response, is_exception, or_index_error,
  build_write_single_frame, parse_write_response, write_ok,
}

abbrev pub words_bytes : List ℕ → List ℕ
words_bytes [] = []
words_bytes (r ∷ regs) = word_bytes r ++ words_bytes regs

-- The answer of unit `unit_id` to a read, with the contents of its registers.
abbrev pub read_answer : ℕ → List ℕ → List ℕ
read_answer unit_id regs = with_crc (unit_id ∷ 3 ∷ 2 * length regs ∷ words_bytes regs)

length-words_bytes : (regs : List ℕ) → length (words_bytes regs) ≡ 2 * length regs
length-words_bytes [] = refl
length-words_bytes (r ∷ regs) = omega (arith, length-words_bytes regs)

word-join : (r : ℕ) → r < 2 ^ 16 → bit_or ((r / 2 ^ 8) % 2 ^ 8 * 2 ^ 8) (r % 2 ^ 8) ≡ r
word-join r h = omega (arith, or_fields 8 ((r / 2 ^ 8) % 2 ^ 8) (r % 2 ^ 8) (omega arith))

registers-words_bytes :
    (regs : List ℕ)
    → All (λ r. r < 2 ^ 16) regs
    → registers (2 * length regs) (words_bytes regs) ≡ some regs
unfolding registers
registers-words_bytes [] h = refl
registers-words_bytes (r ∷ regs) h =
    let e : 2 * length (r ∷ regs) ≡ suc (suc (2 * length regs)) = omega arith in
    ap (λ (n : ℕ). registers n (words_bytes (r ∷ regs))) e
    ∙ rw (registers, registers-words_bytes regs h.1)
        (ap (λ (w : ℕ). some (w ∷ regs)) (word-join r h.0))

pub crc16_modbus-lt : (bytes : List ℕ) → crc16_modbus bytes < 2 ^ 16
unfolding crc16_modbus
crc16_modbus-lt bytes = omega arith

get_or-append : (xs ys : List ℕ) (i d : ℕ) → get_or (xs ++ ys) (length xs + i) d ≡ get_or ys i d
get_or-append [] ys i d = ap (λ (n : ℕ). get_or ys n d) (omega arith)
get_or-append (x ∷ xs) ys i d =
    ap (λ (n : ℕ). get_or (x ∷ xs ++ ys) n d) {y = suc (length xs + i)} (omega arith)
    ∙ get_or-append xs ys i d

-- The checksum at the end of a frame is read back.
pub crc-read :
    (body : List ℕ)
    → bit_or
        (get_or (with_crc body) (length body) 0)
        (get_or (with_crc body) (length body + 1) 0 * 2 ^ 8)
      ≡ crc16_modbus body
unfolding with_crc
crc-read body =
    let crc = crc16_modbus body in
    let tail = crc % 2 ^ 8 ∷ (crc / 2 ^ 8) % 2 ^ 8 ∷ [] in
    ap₂ (λ (s : ℕ) (t : ℕ). bit_or s (t * 2 ^ 8))
      (ap (λ (n : ℕ). get_or (body ++ tail) n 0) {y = length body + 0} (omega arith)
        ∙ get_or-append body tail 0 0)
      (get_or-append body tail 1 0)
    ∙ omega (
      arith,
      crc16_modbus-lt body,
      or_fields_swap 8 ((crc / 2 ^ 8) % 2 ^ 8) (crc % 2 ^ 8) (omega arith),
    )

length-with_crc : (body : List ℕ) → length (with_crc body) ≡ length body + 2
unfolding with_crc
length-with_crc body = omega (
  arith,
  length-append body (crc16_modbus body % 2 ^ 8 ∷ (crc16_modbus body / 2 ^ 8) % 2 ^ 8 ∷ []),
)

take-with_crc : (body : List ℕ) → take (length body) (with_crc body) ≡ body
unfolding with_crc
take-with_crc body = take-append body _

-- A frame from the right unit, long enough and with a matching checksum is read.
pub parse-accepted :
    (resp : List ℕ) (count unit_id : ℕ)
    → let end = 3 + get_or resp 2 0 in
      get_or resp 0 0 ≡ unit_id
      → is_exception (get_or resp 1 0) ≡ false
      → end + 2 ≤ length resp
      → bit_or (get_or resp end 0) (get_or resp (end + 1) 0 * 2 ^ 8) ≡ crc16_modbus (take end resp)
      → parse_read_holding_response resp count unit_id
        ≡ or_index_error
            (registers (min (get_or resp 2 0) (count * 2)) (take (get_or resp 2 0) (drop 3 resp)))
unfolding parse_read_holding_response
parse-accepted resp count unit_id u f l c = ground arith

-- The registers of an answer to a read of as many registers come back unchanged, each below 2 ^
-- 16.
pub read-answer :
    (unit_id : ℕ) (regs : List ℕ)
    → All (λ r. r < 2 ^ 16) regs
    → parse_read_holding_response (read_answer unit_id regs) (length regs) unit_id ≡ ok regs
unfolding with_crc
read-answer unit_id regs h =
    let body = unit_id ∷ 3 ∷ 2 * length regs ∷ words_bytes regs in
    let e : length body ≡ 3 + 2 * length regs = omega (arith, length-words_bytes regs) in
    let parsed =
      parse-accepted (with_crc body) (length regs) unit_id refl refl
        (omega (arith, e, length-with_crc body))
        (subst
          (λ (n : ℕ).
            bit_or (get_or (with_crc body) n 0) (get_or (with_crc body) (n + 1) 0 * 2 ^ 8)
            ≡ crc16_modbus (take n (with_crc body)))
          e (crc-read body ∙ ap crc16_modbus (sym (take-with_crc body)))) in
    let data_bytes : take (2 * length regs) (words_bytes regs ++ drop (length body) (with_crc body))
        ≡ words_bytes regs =
      ap (λ (n : ℕ). take n (words_bytes regs ++ drop (length body) (with_crc body)))
        (sym (length-words_bytes regs))
      ∙ take-append (words_bytes regs) (drop (length body) (with_crc body)) in
    parsed
    ∙ ap₂ (λ (n : ℕ) (t : List ℕ). or_index_error (registers n (take (2 * length regs) t)))
        {y = 2 * length regs} {v = words_bytes regs ++ drop (length body) (with_crc body)}
        (omega arith) (ap (λ (t : List ℕ). words_bytes regs ++ t) (sym (drop-append body _)))
    ∙ ap (λ (t : List ℕ). or_index_error (registers (2 * length regs) t)) data_bytes
    ∙ ap or_index_error (registers-words_bytes regs h)

registers-length :
    (limit : ℕ) (data_bytes regs : List ℕ)
    → registers limit data_bytes ≡ some regs
    → 2 * length regs ≤ limit + 1
unfolding registers
registers-length zero data_bytes regs h = ground arith
registers-length (suc zero) (hi ∷ lo ∷ rest) regs h = ground arith
registers-length (suc (suc limit)) (hi ∷ lo ∷ rest) regs h =
    elim (Option-cases (registers limit rest)) [
      | inl e ↦ ground arith
      | inr (more, e) ↦ ground (arith, registers-length limit rest more e)
    ]
registers-length (suc zero) (hi ∷ []) regs h = ground arith
registers-length (suc (suc limit)) (hi ∷ []) regs h = ground arith
registers-length (suc zero) [] regs h = ground arith
registers-length (suc (suc limit)) [] regs h = ground arith

or_index_error-ok :
    (r : Option (List ℕ)) (regs : List ℕ) → or_index_error r ≡ ok regs → r ≡ some regs
or_index_error-ok none regs h = ground arith
or_index_error-ok (some x) regs h = ground arith

-- Registers are only ever read out of a frame of the unit that was asked, without the exception
-- bit, of the announced length and with the right checksum, and never more than were asked for.
pub read_sound :
    (resp : List ℕ) (count unit_id : ℕ) (regs : List ℕ)
    → parse_read_holding_response resp count unit_id ≡ ok regs
    → let end = 3 + get_or resp 2 0 in
      (get_or resp 0 0 ≡ unit_id)
      × (is_exception (get_or resp 1 0) ≡ false)
      × (end + 2 ≤ length resp)
      × (bit_or (get_or resp end 0) (get_or resp (end + 1) 0 * 2 ^ 8)
          ≡ crc16_modbus (take end resp))
      × (length regs ≤ count)
unfolding parse_read_holding_response
read_sound resp count unit_id regs h =
    let read =
      registers (min (get_or resp 2 0) (count * 2)) (take (get_or resp 2 0) (drop 3 resp)) in
    ground (
      arith,
      or_index_error-ok read regs,
      registers-length (min (get_or resp 2 0) (count * 2)) (take (get_or resp 2 0) (drop 3 resp))
          regs,
    )

-- For a unit below 2 ^ 8, the request to write one register, sent back by the device as it does
-- to acknowledge, is taken for a success of function code 6.
pub write-echo :
    (address value unit_id : ℕ)
    → unit_id < 2 ^ 8
    → let request = with_crc (unit_id ∷ 0x06 ∷ (word_bytes address ++ word_bytes value)) in
      (build_write_single_frame address value unit_id 0x06 ≡ ok request)
      × (parse_write_response request unit_id ≡ write_ok 0x06)
unfolding build_write_single_frame parse_write_response with_crc
write-echo address value unit_id h =
    let body = unit_id ∷ 0x06 ∷ (word_bytes address ++ word_bytes value) in
    let small : unit_id % 2 ^ 8 ≡ unit_id = omega arith in
    (
      ap (λ (u : ℕ). ok (with_crc (u ∷ 0x06 ∷ (word_bytes address ++ word_bytes value)))) small,
      ground (arith, crc-read body),
    )
