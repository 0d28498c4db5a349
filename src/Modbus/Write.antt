-- ===== src/Modbus/Write.antt =====
-- The writes of one register: `write_modbus_single_register` over TCP, and `write_register` of
-- `_EybondModbusTransport` in api/adapters/modbus.py.
use home_assistant_dess_moni.Base.{
  ℕ, ◌*◌, ◌%◌, ◌^◌, bit_or, not, List, [], ◌∷◌, ◌++◌, Option, none, some, length, take, get_or, ltb,
  eqb, if◌then◌else◌,
}
use home_assistant_dess_moni.Crc.{crc16_modbus}
use home_assistant_dess_moni.Modbus.Framing.{
  ModbusError, unexpected_unit, device_exception, crc_mismatch, incomplete_read, unsupported_func,
  is_exception, word_bytes, with_crc, Outcome, ok, failed, WriteAnswer, write_ok, write_error,
  parse_write_response,
}

-- The request that `_send` writes.
unfoldable pub write_request : ℕ → ℕ → ℕ → ℕ → Outcome (List ℕ)
write_request func_code address value unit_id =
    let head = unit_id % 2 ^ 8 ∷ func_code % 2 ^ 8 ∷ word_bytes address in
    if eqb func_code 0x06
    then ok (with_crc (head ++ word_bytes value))
    else if eqb func_code 0x10
    then ok (with_crc (head ++ 0x00 ∷ 0x01 ∷ 0x02 ∷ word_bytes value))
    else failed (unsupported_func func_code)

-- What `_send` makes of the stream that follows the request, `none` where there is no connection. The
-- function code and the address of the answer are not compared with those of the request.
unfoldable pub write_answer : ℕ → ℕ → Option (List ℕ) → WriteAnswer
write_answer unit_id func_code none = write_error incomplete_read
write_answer unit_id func_code (some stream) =
    let body = take 6 stream in
    let recv_crc = bit_or (get_or stream 6 0) (get_or stream 7 0 * 2 ^ 8) in
    if ltb (length stream) 8
    then write_error incomplete_read
    else if not (eqb recv_crc (crc16_modbus body))
    then write_error crc_mismatch
    else if not (eqb (get_or body 0 0) unit_id)
    then write_error (unexpected_unit (get_or body 0 0))
    else if is_exception (get_or body 1 0)
    then write_error (device_exception (get_or body 2 0))
    else write_ok func_code

pub data WriteResult : Type 0 where
  written : ℕ → WriteResult
  not_written : ModbusError → ModbusError → WriteResult

-- The bus is a parameter: what a request comes to, and the state of the devices after it.
module _ {ℓ} {S : Type ℓ} (exchange : S → List ℕ → Option (List ℕ) × S) where
  abbrev pub answered : ℕ → ℕ → Option (List ℕ) × S → WriteAnswer × S
  answered unit_id func_code (stream, s) = (write_answer unit_id func_code stream, s)

  -- `_send`
  unfoldable pub send_write : ℕ → ℕ → ℕ → ℕ → S → WriteAnswer × S
  unfolding write_request write_answer
  send_write func_code address value unit_id s =
      elim (write_request func_code address value unit_id) [
        | failed e ↦ (write_error e, s)
        | ok req ↦ answered unit_id func_code (exchange s req)
      ]

  -- The second attempt, after the error of the first.
  abbrev pub fallback : ModbusError → WriteAnswer × S → WriteResult × S
  fallback e₁ (write_ok func, s) = (written func, s)
  fallback e₁ (write_error e₂, s) = (not_written e₁ e₂, s)

  abbrev pub first_or_fallback : WriteAnswer × S → (S → WriteAnswer × S) → WriteResult × S
  first_or_fallback (write_ok func, s) again = (written func, s)
  first_or_fallback (write_error e₁, s) again = fallback e₁ (again s)

  unfoldable pub write_modbus_single_register : ℕ → ℕ → ℕ → S → WriteResult × S
  unfolding send_write
  write_modbus_single_register address value unit_id s =
      first_or_fallback (send_write 0x06 address value unit_id s)
        (send_write 0x10 address value unit_id)

-- One round of `write_register`: an empty answer is no answer.
unfoldable pub write_round : ℕ → List ℕ → WriteAnswer
write_round unit_id [] = write_error incomplete_read
write_round unit_id (b ∷ resp) = parse_write_response (b ∷ resp) unit_id

abbrev pub or_second : WriteAnswer → WriteAnswer → WriteAnswer
or_second (write_ok func) second = write_ok func
or_second (write_error e) second = second

-- `[]` stands for None as well.
unfoldable pub write_register : ℕ → List ℕ → List ℕ → WriteAnswer
unfolding write_round
write_register unit_id first second =
    or_second (write_round unit_id first) (write_round unit_id second)
