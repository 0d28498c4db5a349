-- ===== src/Modbus/Tests.antt =====
-- Runs of the frames on a small device.
use home_assistant_dess_moni.Base.{
  refl, ℕ, ◌+◌, ◌*◌, ◌%◌, ◌^◌, ◌<◌, ◌≤◌, ◌≡◌, ◌↔◌, arith, bit_or, true, false, List, [], ◌∷◌,
  Option, some, length, take, get_or,
}
use home_assistant_dess_moni.Base.{string_eq}
use home_assistant_dess_moni.Base.Text.{codes}
use home_assistant_dess_moni.Base.Int.{pos}
use home_assistant_dess_moni.Base.Dict.{lookup}
use home_assistant_dess_moni.Values.{int, text}
use home_assistant_dess_moni.Modbus.Projections.{number, smg2_to_qpiri}
use home_assistant_dess_moni.Modbus.Adapter.{solar, output_priority_write}
use home_assistant_dess_moni.Modbus.Settings.{output, register_of, shown-written}
use home_assistant_dess_moni.Crc.{modbus_from, modbus_round, crc16_modbus}
use home_assistant_dess_moni.Modbus.Framing.{
  ok, with_crc, is_exception, parse_read_holding_response,
}
use home_assistant_dess_moni.Modbus.Roundtrip.{read_answer, read-answer, read_sound}
use home_assistant_dess_moni.Modbus.Stream.{read_modbus_block, block-iff-parse}
use home_assistant_dess_moni.Modbus.Write.{
  write_modbus_single_register, send_write, write_request, write_answer, written,
}
use home_assistant_dess_moni.Modbus.Device.{Device, store, serve, write-serve}
use home_assistant_dess_moni.Modbus.Smg2.{
  Fields, sensor_table, config_table, read_smg2_snapshot_via,
}
use home_assistant_dess_moni.Modbus.Snapshot.{read_device, entries, snapshot-registers}

abbrev two_registers : List ℕ
two_registers = 0x1234 ∷ 0xff ∷ []

read-answer_example :
    parse_read_holding_response (read_answer 1 two_registers) (length two_registers) 1
    ≡ ok two_registers
read-answer_example = read-answer 1 two_registers (omega arith, (omega arith, tt))

abbrev one_value : List ℕ
one_value = 0x0102 ∷ []

-- An answer with one register, as bytes.
abbrev one_register : List ℕ
one_register = read_answer 1 one_value

read_sound_example :
    let end = 3 + get_or one_register 2 0 in
    (get_or one_register 0 0 ≡ 1)
    × (is_exception (get_or one_register 1 0) ≡ false)
    × (end + 2 ≤ length one_register)
    × (bit_or (get_or one_register end 0) (get_or one_register (end + 1) 0 * 2 ^ 8)
        ≡ crc16_modbus (take end one_register))
    × (length one_value ≤ 1)
read_sound_example =
    read_sound one_register 1 1 one_value (read-answer 1 one_value (omega arith, tt))

block-iff-parse_example : (read_modbus_block 1 1 one_register ≡ ok one_value) ↔ (
    (parse_read_holding_response one_register 1 1 ≡ ok one_value)
    × (get_or one_register 2 0 % 2 ≡ 0))
block-iff-parse_example = block-iff-parse one_register one_value 1 1

-- A device whose registers hold their own numbers.
abbrev own_numbers : ℕ → ℕ
own_numbers a = a % 2 ^ 16

own_numbers-lt : (a : ℕ) → own_numbers a < 2 ^ 16
own_numbers-lt a = omega arith

snapshot-registers_example :
    read_smg2_snapshot_via (read_device own_numbers 1)
    ≡ ok (
      entries own_numbers sensor_table,
      entries own_numbers config_table,
      some (record {
        fault_code = 100 * 2 ^ 16 + 101;
        warning_code = 108 * 2 ^ 16 + 109;
        has_fault = true;
        has_warning = true;
        fault_description = some (100 * 2 ^ 16 + 101);
      }),
    )
snapshot-registers_example = snapshot-registers own_numbers 1 own_numbers-lt

-- A device that lacks the function 0x06.
abbrev only_multiple : Device
only_multiple = record { unit = 1; has_single = false; has_multiple = true; contents = own_numbers }

write-serve_example :
    write_modbus_single_register serve 301 2 1 only_multiple
    ≡ (written 0x10, store only_multiple 301 2)
write-serve_example = write-serve only_multiple 301 2 (omega arith) (omega arith) (omega arith)

-- The acknowledgement of 5 in register 302.
abbrev other_address : List ℕ
other_address = with_crc (1 ∷ 0x06 ∷ 0x01 ∷ 0x2e ∷ 0x00 ∷ 0x05 ∷ [])

-- A bus that answers every request with one stream.
abbrev always : ℕ → List ℕ → Option (List ℕ) × ℕ
always sent request = (some other_address, sent + 1)

-- An acknowledgement of a write to another register is taken for one of this write.
other_acknowledged : write_modbus_single_register always 301 2 1 0 ≡ (written 0x06, 1)
unfolding write_modbus_single_register send_write write_request write_answer with_crc crc16_modbus
    modbus_from modbus_round
other_acknowledged = refl

-- A snapshot that has 1 in the register of the output priority.
abbrev solar_first : Fields
solar_first = ("output_priority", some (int (pos 1))) ∷ []

shown-written_example :
    (register_of "output_priority" config_table ≡ some 301)
    × (lookup "output_source_priority" (smg2_to_qpiri solar_first)
        ≡ some (text (codes "SolarFirst")))
unfolding output_priority_write number
shown-written_example = shown-written (output solar) solar_first refl
