-- ===== src/Pi18/Frame.antt =====
-- api/decoders/pi18.py: request frames, and what is left of an answer without its envelope.
use home_assistant_dess_moni.Base.{
  ℕ, ◌+◌, ◌-◌, ◌&&◌, List, [], ◌∷◌, ◌++◌, eqb, leb, length, take, drop, if◌then◌else◌, list_eq,
  nat_eq,
}
use home_assistant_dess_moni.Base.Text.{Text, codes, starts_with, upper}
use home_assistant_dess_moni.Base.Decimal.{padded}
use home_assistant_dess_moni.Base.Dict.{lookup_or}
use home_assistant_dess_moni.Crc.{crc16_xmodem_bytes}
use home_assistant_dess_moni.Pi18.Tables.{logical_to_native}

-- `LOGICAL_TO_NATIVE.get(cmd, cmd)` for `cmd = command.upper()`
unfoldable pub native_command : Text → Text
native_command command = lookup_or (upper command) (upper command) logical_to_native

-- The frame in front of its checksum.
unfoldable pub request_head : Text → List ℕ
request_head body = codes "^P" ++ padded 3 (length body + 3) ++ body

unfoldable pub build_request_frame : Text → List ℕ
build_request_frame command =
    let head = request_head (native_command command) in head ++ crc16_xmodem_bytes head ++ 0x0d ∷ []

-- `payload[:payload.find(b"\r")]`, or all of it where there is none.
unfoldable pub before_cr : List ℕ → List ℕ
before_cr [] = []
before_cr (c ∷ rest) = if eqb c 0x0d then [] else c ∷ before_cr rest

-- `payload[:-2]`
unfoldable pub without_crc : List ℕ → List ℕ
without_crc payload = if leb 2 (length payload) then take (length payload - 2) payload else payload

unfoldable pub without_header : List ℕ → List ℕ
without_header payload =
    if starts_with payload (codes "^D") && leb 5 (length payload)
    then drop 5 payload
    else if starts_with payload (codes "(")
    then drop 1 payload
    else payload

unfoldable pub strip_pi18_frame : List ℕ → List ℕ
strip_pi18_frame raw = without_header (without_crc (before_cr raw))
