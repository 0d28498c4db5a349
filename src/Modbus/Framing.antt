-- ===== src/Modbus/Framing.antt =====
-- The frames: building a read and a write, and parsing what a device answers. An exception that the
-- source raises is a value of `ModbusError`.
use home_assistant_dess_moni.Base.{
  ℕ, zero, suc, ◌+◌, ◌*◌, ◌/◌, ◌%◌, ◌^◌, bit_or, min, Bool, not, ◌&&◌, List, [], ◌∷◌, ◌++◌, Option,
  none, some, ltb, leb, eqb, if◌then◌else◌, length, take, drop, get_or,
}
use home_assistant_dess_moni.Crc.{crc16_modbus}

pub data ModbusError : Type 0 where
  short_frame : ModbusError
  unexpected_unit : ℕ → ModbusError
  device_exception : ℕ → ModbusError
  short_data : ModbusError
  crc_mismatch : ModbusError
  odd_byte_count : ModbusError
  index_error : ModbusError
  incomplete_read : ModbusError
  unsupported_func : ℕ → ModbusError

pub data Outcome {ℓ} (A : Type ℓ) : Type ℓ where
  ok : A → Outcome A
  failed : ModbusError → Outcome A

-- `(x >> 8) & 0xFF` and `x & 0xFF`
abbrev pub word_bytes : ℕ → List ℕ
word_bytes x = (x / 2 ^ 8) % 2 ^ 8 ∷ x % 2 ^ 8 ∷ []

-- The checksum, low byte first, behind a request.
unfoldable pub with_crc : List ℕ → List ℕ
with_crc req = let crc = crc16_modbus req in req ++ crc % 2 ^ 8 ∷ (crc / 2 ^ 8) % 2 ^ 8 ∷ []

unfoldable pub build_read_holding_frame : ℕ → ℕ → ℕ → List ℕ
build_read_holding_frame start count unit_id =
    with_crc (unit_id % 2 ^ 8 ∷ 3 ∷ (word_bytes start ++ word_bytes count))

-- `range(0, limit, 2)` over the data, with the IndexError of an odd rest.
unfoldable pub registers : ℕ → List ℕ → Option (List ℕ)
registers zero data_bytes = some []
registers (suc zero) (hi ∷ lo ∷ rest) = some (bit_or (hi * 2 ^ 8) lo ∷ [])
registers (suc (suc limit)) (hi ∷ lo ∷ rest) = elim (registers limit rest) [
  | some regs ↦ some (bit_or (hi * 2 ^ 8) lo ∷ regs)
  | none ↦ none
]
registers (suc limit) (hi ∷ []) = none
registers (suc limit) [] = none

abbrev pub or_index_error : Option (List ℕ) → Outcome (List ℕ)
or_index_error (some regs) = ok regs
or_index_error none = failed index_error

-- `func & 0x80`
abbrev pub is_exception : ℕ → Bool
is_exception func = not (eqb (func / 2 ^ 7 % 2) 0)

-- The frame from its byte count on: `resp[:end]`, the data and the checksum.
unfoldable pub parse_read_holding_response : List ℕ → ℕ → ℕ → Outcome (List ℕ)
unfolding registers
parse_read_holding_response resp count unit_id =
    let byte_count = get_or resp 2 0 in
    let end = 3 + byte_count in
    let data_bytes = take byte_count (drop 3 resp) in
    let recv_crc = bit_or (get_or resp end 0) (get_or resp (end + 1) 0 * 2 ^ 8) in
    if ltb (length resp) 5
    then failed short_frame
    else if not (eqb (get_or resp 0 0) unit_id)
    then failed (unexpected_unit (get_or resp 0 0))
    else if is_exception (get_or resp 1 0)
    then failed (device_exception byte_count)
    else if ltb (length resp) (end + 2)
    then failed short_data
    else if not (eqb recv_crc (crc16_modbus (take end resp)))
    then failed crc_mismatch
    else or_index_error (registers (min byte_count (count * 2)) data_bytes)

unfoldable pub build_write_single_frame : ℕ → ℕ → ℕ → ℕ → Outcome (List ℕ)
unfolding with_crc
build_write_single_frame address value unit_id func_code =
    let head = unit_id % 2 ^ 8 ∷ func_code % 2 ^ 8 ∷ word_bytes address in
    if eqb func_code 0x06
    then ok (with_crc (head ++ word_bytes value))
    else if eqb func_code 0x10
    then ok (with_crc (head ++ 0x00 ∷ 0x01 ∷ 0x02 ∷ word_bytes value))
    else failed (unsupported_func func_code)

-- The function code of an answer with status OK, or what went wrong. An answer of four bytes or more
-- always has the byte that the exception branch reads.
pub data WriteAnswer : Type 0 where
  write_ok : ℕ → WriteAnswer
  write_error : ModbusError → WriteAnswer

unfoldable pub parse_write_response : List ℕ → ℕ → WriteAnswer
parse_write_response resp unit_id =
    let func = get_or resp 1 0 in
    let recv_crc = bit_or (get_or resp 6 0) (get_or resp 7 0 * 2 ^ 8) in
    if ltb (length resp) 4
    then write_error short_frame
    else if is_exception func
    then write_error (device_exception (get_or resp 2 0))
    else if not (eqb (get_or resp 0 0) unit_id)
    then write_error (unexpected_unit (get_or resp 0 0))
    else if leb 8 (length resp) && not (eqb recv_crc (crc16_modbus (take 6 resp)))
    then write_error crc_mismatch
    else write_ok func
