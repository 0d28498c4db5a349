-- ===== src/Pi18/Tests.antt =====
-- Runs of the PI18 decoders.
use home_assistant_dess_moni.Base.{
  ℕ, ◌≡◌, refl, true, false, List, [], ◌∷◌, ◌++◌, length, take, arith, ◌==◌, ◌||◌, string_eq,
  nat_eq, list_eq, none, some, if◌then◌else◌,
}
use home_assistant_dess_moni.Base.Dict.{lookup}
use home_assistant_dess_moni.Base.Text.{Text, codes, is_space, strip, lstrip, upper}
use home_assistant_dess_moni.Base.Int.{ℤ, pos, int_eq}
use home_assistant_dess_moni.Crc.{
  crc16_xmodem_bytes, crc16_xmodem, xmodem_from, xmodem_byte, xmodem_round,
}
use home_assistant_dess_moni.Crc.Frame.{validate_pi18_response}
use home_assistant_dess_moni.Values.{int, line, mode, whole_number}
use home_assistant_dess_moni.Pi18.Numbers.{safe_int, parse_int, signed_int, read_int}
use home_assistant_dess_moni.Pi18.Frame.{
  native_command, request_head, build_request_frame, before_cr, without_crc, without_header,
  strip_pi18_frame,
}
use home_assistant_dess_moni.Pi18.Warnings.{decode_mod}
use home_assistant_dess_moni.Pi18.Respond.{
  decode_pi18_response, payload_text, decode_payload, decode_energy,
}
use home_assistant_dess_moni.Coordinator.Fetch.{
  Coordinator, Pair, is_error_result, is_nak_result, is_rejected, accept_result,
}
use home_assistant_dess_moni.Base.Units.{units}
use home_assistant_dess_moni.Pi18.Tables.{
  mppt_status, battery_power_direction, dcac_power_direction, line_power_direction,
}
use home_assistant_dess_moni.Pi18.Status.{decode_gs}
use home_assistant_dess_moni.Pi18.Enums.{names_member, gs-members}
use home_assistant_dess_moni.Pi18.Delivery.{concat, query-concat, query-frame}
use home_assistant_dess_moni.Pi18.Request.{open_frame, frame-declared}
use home_assistant_dess_moni.Pi18.Errors.{is_void, answer-error}
use home_assistant_dess_moni.Pi18.Transport.{
  query_pi18, receive_all, data_received, has_cr, answer_of, result_of,
}

abbrev no_ratio : ℤ → ℤ → Text
no_ratio p v = codes "?"

-- The answer `^D00505` and its checksum, in two chunks.
abbrev mode_chunks : List (List ℕ)
mode_chunks = codes "^D00" ∷ (codes "505" ++ 0xd9 ∷ 0x9f ∷ 0x0d ∷ []) ∷ []

mode_run :
    query_pi18 no_ratio true (codes "qmod") mode_chunks ≡ (("operating_mode", mode line) ∷ [])
unfolding query_pi18 receive_all data_received has_cr answer_of result_of before_cr
    validate_pi18_response crc16_xmodem_bytes crc16_xmodem xmodem_from xmodem_byte xmodem_round
    decode_pi18_response payload_text strip_pi18_frame without_crc without_header native_command
    upper decode_payload decode_mod safe_int parse_int signed_int read_int strip lstrip is_space
mode_run = refl

-- The checksum of `^D01100000158` is 0x95 0x0d, and the answer that a device sends for 158 kWh is read
-- as 15 kWh.
cr_in_checksum :
    (crc16_xmodem_bytes (codes "^D01100000158") ≡ 0x95 ∷ 0x0d ∷ [])
    × (query_pi18 no_ratio false
          (codes "ET")
          ((codes "^D01100000158" ++ 0x95 ∷ 0x0d ∷ 0x0d ∷ []) ∷ [])
        ≡ (("total_energy_kwh", int (pos 15)) ∷ []))
unfolding query_pi18 receive_all data_received has_cr answer_of result_of before_cr
    validate_pi18_response crc16_xmodem_bytes crc16_xmodem xmodem_from xmodem_byte xmodem_round
    decode_pi18_response payload_text strip_pi18_frame without_crc without_header native_command
    upper decode_payload decode_energy safe_int parse_int signed_int read_int strip lstrip is_space
cr_in_checksum = (refl, refl)

query-concat_example :
    query_pi18 no_ratio true (codes "QMOD") mode_chunks
    ≡ query_pi18 no_ratio true (codes "QMOD") (concat mode_chunks ∷ [])
query-concat_example = query-concat no_ratio true (codes "QMOD") mode_chunks

query-frame_example :
    query_pi18 no_ratio true (codes "QMOD") mode_chunks
    ≡ decode_payload no_ratio (native_command (codes "QMOD")) (payload_text (codes "05"))
unfolding crc16_xmodem_bytes crc16_xmodem xmodem_from xmodem_byte xmodem_round payload_text strip
    lstrip is_space
query-frame_example =
    query-frame no_ratio true (codes "QMOD") (codes "005") (codes "05") mode_chunks refl
      (ground arith) (ground arith) (ground arith) refl

frame-declared_example :
    let e = open_frame (build_request_frame (codes "qpigs")) in
    (e.declared ≡ length e.rest)
    × (take (length (native_command (codes "qpigs"))) e.rest ≡ native_command (codes "qpigs"))
    × (validate_pi18_response e.summed ≡ (true, request_head (native_command (codes "qpigs"))))
unfolding native_command upper
frame-declared_example = frame-declared (codes "qpigs") (omega arith)

-- The read of QPIGS for one device, and a coordinator that has seen nothing.
abbrev polled : Pair
polled = ("pi18", "QPIGS")

abbrev idle : Coordinator
idle = record {
  failures = record { max_consecutive = 6; counts = [] };
  unsupported = [];
  nak_counts = [];
}

answer-error_example :
    let section = decode_pi18_response no_ratio (codes "QPIGS") (codes "^0") in
    let bad = take 2 (codes "^0") == codes "^0" || is_void (codes "^0") in
    (is_error_result section ≡ bad)
    × (is_nak_result section ≡ (take 2 (codes "^0") == codes "^0"))
    × ((accept_result units whole_number idle polled section).0
        ≡ (if bad || is_rejected units whole_number polled section then none else some section))
answer-error_example =
    answer-error units whole_number idle polled no_ratio (codes "QPIGS") (codes "^0")

gs-members_example :
    let gs = decode_gs no_ratio (codes "2301" ∷ []) in
    (names_member mppt_status (lookup "mppt1_status" gs) ≡ true)
    × (names_member mppt_status (lookup "mppt2_status" gs) ≡ true)
    × (names_member battery_power_direction (lookup "battery_power_direction" gs) ≡ true)
    × (names_member dcac_power_direction (lookup "dcac_power_direction" gs) ≡ true)
    × (names_member line_power_direction (lookup "line_power_direction" gs) ≡ true)
gs-members_example = gs-members no_ratio (codes "2301" ∷ [])
