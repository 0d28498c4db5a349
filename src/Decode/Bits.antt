-- ===== src/Decode/Bits.antt =====
-- The status bits: `_clean_bits` of api/decoders/voltronic.py, and the parsers of
-- api/decoders/enums.py.
use home_assistant_dess_moni.Base.{
  ℕ, ◌+◌, ◌-◌, ◌*◌, ◌/◌, ◌%◌, ◌^◌, Bool, not, ◌||◌, [], ◌∷◌, ◌++◌, eqb, keep_if, length, take,
  replicate,
}
use home_assistant_dess_moni.Base.Text.{Text}
use home_assistant_dess_moni.Values.{flag, text, Section}

-- `c in "01"`
unfoldable pub is_bit : ℕ → Bool
is_bit c = eqb c b'0' || eqb c b'1'

unfoldable pub clean_bits : Text → ℕ → Text
unfolding is_bit
clean_bits raw width = take width (keep_if is_bit raw)

unfoldable pub extract_bits : Text → ℕ → Text
unfolding is_bit
extract_bits raw count =
    let bits = take count (keep_if is_bit raw) in replicate (count - length bits) b'0' ++ bits

-- `int(bits, 2)`, with what has been read so far.
unfoldable pub binary_from : ℕ → Text → ℕ
binary_from value [] = value
binary_from value (c ∷ bits) = binary_from (value * 2 + (c - b'0')) bits

-- `bool(value & (1 << i))`
abbrev pub has_bit : ℕ → ℕ → Bool
has_bit value i = not (eqb (value / 2 ^ i % 2) 0)

unfoldable pub parse_device_status_bits_b7_b0 : Text → Section
unfolding extract_bits binary_from
parse_device_status_bits_b7_b0 raw =
    let bits = extract_bits raw 8 in
    let value = binary_from 0 bits in
    ("fault", flag (has_bit value 7))
    ∷ ("line_fail", flag (has_bit value 4))
    ∷ ("bus_over", flag (has_bit value 5))
    ∷ ("battery_low", flag (has_bit value 3))
    ∷ ("battery_high", flag (has_bit value 2))
    ∷ ("inverter_overload", flag (has_bit value 1))
    ∷ ("inverter_on", flag (has_bit value 0))
    ∷ ("_raw_b7_b0", text bits)
    ∷ []

unfoldable pub parse_device_status_bits_b10_b8 : Text → Section
unfolding extract_bits binary_from
parse_device_status_bits_b10_b8 raw =
    let bits = extract_bits raw 3 in
    let value = binary_from 0 bits in
    ("charging_to_battery", flag (has_bit value 2))
    ∷ ("charging_scc_active", flag (has_bit value 0))
    ∷ ("charging_ac_active", flag (has_bit value 1))
    ∷ ("_raw_b10_b8", text bits)
    ∷ []
