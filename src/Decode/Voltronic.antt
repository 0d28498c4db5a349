-- ===== src/Decode/Voltronic.antt =====
-- api/decoders/voltronic.py: from the text of an answer to a section.
use home_assistant_dess_moni.Base.{
  ℕ, zero, suc, ◌+◌, ◌-◌, ◌*◌, ◌%◌, Bool, true, false, not, ◌&&◌, ◌||◌, List, [], ◌∷◌, String,
  Option, none, some, eqb, leb, ltb, keep_if, length, take, drop, if◌then◌else◌, string_eq, list_eq,
  nat_eq, ◌==◌,
}
use home_assistant_dess_moni.Base.Text.{
  Text, codes, starts_with, contains_text, strip, split, without, upper,
}
use home_assistant_dess_moni.Base.Dict.{Dict, lookup, insert}
use home_assistant_dess_moni.Values.{Value, OperatingMode, text, flag, mode, Section}
use home_assistant_dess_moni.Decode.Enums.{
  battery_type, ac_input_voltage_range, output_source_priority, charger_source_priority,
  parallel_mode, operating_mode,
}
use home_assistant_dess_moni.Decode.Fields.{
  qpigs_fields, qpigs2_fields, qpiws_fields, qpiri_fields, qbeqi_fields,
}
use home_assistant_dess_moni.Decode.Bits.{clean_bits, is_bit}

-- `dict(zip(fields, values))`; the fields of a table are distinct.
unfoldable pub zip_fields : List String → List Text → Section
zip_fields [] values = []
zip_fields (f ∷ fields) [] = []
zip_fields (f ∷ fields) (v ∷ values) = (f, text v) ∷ zip_fields fields values

abbrev pub cleaned : String → ℕ → Section → Option Value → Section
cleaned key width section (some (text raw)) = insert key (text (clean_bits raw width)) section
cleaned key width section _ = section

unfoldable pub decode_qpigs : Text → Section
unfolding zip_fields
decode_qpigs ascii =
    let result = zip_fields qpigs_fields (split ascii) in
    let first =
      cleaned "device_status_bits_b10_b8" 3 result (lookup "device_status_bits_b10_b8" result) in
    cleaned "device_status_bits_b7_b0" 8 first (lookup "device_status_bits_b7_b0" first)

unfoldable pub decode_qpigs2 : Text → Section
unfolding zip_fields
decode_qpigs2 ascii = zip_fields qpigs2_fields (split ascii)

-- The flags in the order of the table, `False` where the bits have run out.
unfoldable pub flags : List String → Text → Section
flags [] bits = []
flags (name ∷ names) [] = (name, flag false) ∷ flags names []
flags (name ∷ names) (b ∷ bits) = (name, flag (eqb b b'1')) ∷ flags names bits

unfoldable pub decode_qpiws : Text → Section
unfolding flags
decode_qpiws ascii = flags qpiws_fields (keep_if is_bit ascii)

-- `Enum(value).name`, or the value where there is no such member.
abbrev pub name_or_value : Dict Text Text → Text → Text
name_or_value members value = elim (lookup value members) [ some name ↦ name | none ↦ value ]

unfoldable pub transform_qpiri_value : ℕ → Text → Text
transform_qpiri_value index value =
    if eqb index 12
    then name_or_value battery_type value
    else if eqb index 15
    then name_or_value ac_input_voltage_range value
    else if eqb index 16
    then name_or_value output_source_priority value
    else if eqb index 17
    then name_or_value charger_source_priority value
    else if eqb index 21
    then name_or_value parallel_mode value
    else value

unfoldable pub transform_from : ℕ → List Text → List Text
unfolding transform_qpiri_value
transform_from i [] = []
transform_from i (v ∷ values) = transform_qpiri_value i v ∷ transform_from (suc i) values

unfoldable pub decode_qpiri : Text → Section
unfolding transform_from zip_fields
decode_qpiri ascii = zip_fields qpiri_fields (transform_from 0 (split ascii))

abbrev mode_or_unknown : Option OperatingMode → Value
mode_or_unknown (some m) = mode m
mode_or_unknown none = text (codes "Unknown")

unfoldable pub decode_qmod : Text → Section
decode_qmod ascii =
    ("operating_mode", mode_or_unknown (lookup (take 1 (strip ascii)) operating_mode)) ∷ []

unfoldable pub decode_qmn : Text → Section
decode_qmn ascii = ("Model", text (strip ascii)) ∷ []

unfoldable pub decode_qid : Text → Section
decode_qid ascii = ("Device ID", text (strip ascii)) ∷ []

unfoldable pub decode_qflag : Text → Section
decode_qflag ascii = ("Enabled/Disabled Flags", text (strip ascii)) ∷ []

-- `s.replace(needle, "")` for a needle that is not empty: what is left after `skip` more characters.
unfoldable pub remove_from : Text → ℕ → Text → Text
remove_from needle skip [] = []
remove_from needle (suc skip) (c ∷ s) = remove_from needle skip s
remove_from needle zero (c ∷ s) = elim (starts_with (c ∷ s) needle) [
  | true ↦ remove_from needle (length needle - 1) s
  | false ↦ c ∷ remove_from needle 0 s
]

unfoldable pub decode_qvfw : Text → Section
unfolding remove_from
decode_qvfw ascii = ("Firmware Version", text (strip (remove_from (codes "VERFW:") 0 ascii))) ∷ []

unfoldable pub decode_qbeqi : Text → Section
unfolding zip_fields
decode_qbeqi ascii = zip_fields qbeqi_fields (split ascii)

-- The digit that a character stands for in `int(b, 16)`.
unfoldable pub hex_digit : ℕ → Option ℕ
hex_digit c =
    if leb b'0' c && leb c b'9'
    then some (c - b'0')
    else if leb b'a' c && leb c b'f'
    then some (c - b'a' + 10)
    else if leb b'A' c && leb c b'F'
    then some (c - b'A' + 10)
    else none

abbrev is_hex_digit : ℕ → Bool
is_hex_digit c = elim (hex_digit c) [ some _ ↦ true | none ↦ false ]

abbrev all_of : (ℕ → Bool) → Text → Bool
all_of p [] = true
all_of p (c ∷ s) = p c && all_of p s

unfoldable pub is_hex_string : Text → Bool
unfolding hex_digit
is_hex_string s =
    let t = without b' ' (strip s) in not (t == []) && all_of is_hex_digit t && eqb (length t % 2) 0

-- `int(b, 16)` for a word of hexadecimal digits.
unfoldable pub hex_from : ℕ → Text → ℕ
unfolding hex_digit
hex_from value [] = value
hex_from value (c ∷ s) = hex_from (value * 16 + (elim (hex_digit c) [ some d ↦ d | none ↦ 0 ])) s

-- `bytes(...)`, which raises on a value above 255, and then `decode("ascii", errors="ignore")`.
unfoldable pub hex_bytes : List Text → Option Text
unfolding hex_from
hex_bytes [] = some []
hex_bytes (word ∷ words) =
    let c = hex_from 0 word in
    elim (hex_bytes words) [
      | none ↦ none
      | some rest ↦ if leb c 255 then some (if ltb c 128 then c ∷ rest else rest) else none
    ]

abbrev without_paren : Text → Text
without_paren s = if starts_with s (codes "(") then drop 1 s else s

unfoldable pub decode_ascii_response : Text → Option Text
unfolding hex_bytes
decode_ascii_response hex_string = elim (hex_bytes (split (strip hex_string))) [
  | none ↦ none
  | some s ↦ some (without_paren (strip s))
]

-- `.strip()` and the four `replace` calls.
unfoldable pub clean_answer : Text → Text
clean_answer s = without 0x0a (without 0x0d (without b')' (without b'(' (strip s))))

-- The decoder of a command, by its name in upper case.
unfoldable pub decode_command : Text → Text → Section
decode_command command ascii =
    if command == codes "QPIGS"
    then decode_qpigs ascii
    else if command == codes "QPIGS2"
    then decode_qpigs2 ascii
    else if command == codes "QPIRI"
    then decode_qpiri ascii
    else if command == codes "QMOD"
    then decode_qmod ascii
    else if command == codes "QMN"
    then decode_qmn ascii
    else if command == codes "QID" || command == codes "QSID"
    then decode_qid ascii
    else if command == codes "QFLAG"
    then decode_qflag ascii
    else if command == codes "QVFW"
    then decode_qvfw ascii
    else if command == codes "QBEQI"
    then decode_qbeqi ascii
    else if command == codes "QPIWS"
    then decode_qpiws ascii
    else ("Raw", text ascii) ∷ []

-- The branch behind the clean-up.
unfoldable pub decode_clean : Text → Text → Section
decode_clean command ascii =
    if starts_with ascii (codes "NAK") || contains_text (codes "NAK") ascii
    then ("error", text (codes "NAK response received. Command not accepted.")) ∷ []
    else decode_command (upper command) ascii

-- `none` is the ValueError of a byte that is out of range.
unfoldable pub decode_direct_response : Text → Text → Option Section
decode_direct_response command input =
    let ascii = if is_hex_string input then decode_ascii_response input else some (strip input) in
    if input == []
    then some (("error", text (codes "empty response")) ∷ [])
    else if input == codes "null"
    then some (("error", text (codes "null response received. Command not accepted.")) ∷ [])
    else elim ascii [ none ↦ none | some s ↦ some (decode_clean command (clean_answer s)) ]
