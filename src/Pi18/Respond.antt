-- ===== src/Pi18/Respond.antt =====
-- api/decoders/pi18.py: the single-value decoders and `decode_pi18_response`.
use home_assistant_dess_moni.Base.{
  ℕ, not, ◌&&◌, ◌||◌, String, List, [], ◌∷◌, ◌++◌, none, some, length, take, drop, eqb, leb, ltb,
  map, keep_if, get_or, if◌then◌else◌, ◌==◌, nat_eq, list_eq, string_eq,
}
use mathlib.Core.List.{reverse}
use home_assistant_dess_moni.Base.Text.{Text, codes, starts_with, strip, split_at}
use home_assistant_dess_moni.Base.Int.{ℤ, pos, negsuc}
use home_assistant_dess_moni.Values.{text, int, ints, texts, Section}
use home_assistant_dess_moni.Pi18.Numbers.{safe_int, parse_int}
use home_assistant_dess_moni.Pi18.Fields.{padded_to}
use home_assistant_dess_moni.Pi18.Frame.{native_command, strip_pi18_frame}
use home_assistant_dess_moni.Pi18.Status.{decode_gs}
use home_assistant_dess_moni.Pi18.Rated.{decode_piri, text_or}
use home_assistant_dess_moni.Pi18.Warnings.{decode_mod, decode_fws, decode_flag, decode_di}

unfoldable pub lstrip_zeros : Text → Text
lstrip_zeros [] = []
lstrip_zeros (c ∷ s) = if eqb c b'0' then lstrip_zeros s else c ∷ s

-- `s.rstrip("0")`
abbrev rstrip_zeros : Text → Text
rstrip_zeros s = reverse (lstrip_zeros (reverse s))

-- `digits[:n] if 0 < n <= len(digits) else digits`
abbrev serial_of : Text → ℤ → Text
serial_of digits (pos n) = if ltb 0 n && leb n (length digits) then take n digits else digits
serial_of digits (negsuc n) = digits

abbrev serial_number : Text → Text
serial_number payload =
    if ltb (length payload) 2 then payload else elim (parse_int (take 2 payload)) [
      | none ↦ text_or (rstrip_zeros (drop 2 payload)) payload
      | some n ↦ serial_of (drop 2 payload) n
    ]

unfoldable pub decode_id : Text → Section
unfolding lstrip_zeros
decode_id payload = ("serial_number", text (serial_number payload)) ∷ []

-- `payload[i:i + n]`
abbrev slice : ℕ → ℕ → Text → Text
slice i n s = take n (drop i s)

unfoldable pub decode_t : Text → Section
decode_t payload =
    let shown =
      slice 0 4 payload
      ++ b'-' ∷ slice 4 2 payload
      ++ b'-' ∷ slice 6 2 payload
      ++ b' ' ∷ slice 8 2 payload
      ++ b':' ∷ slice 10 2 payload
      ++ b':' ∷ slice 12 2 payload in
    ("device_time", text (if ltb (length payload) 14 then payload else shown)) ∷ []

unfoldable pub decode_vfw : List Text → Section
decode_vfw tokens =
    let padded = padded_to 3 tokens in
    ("cpu_main_version", text (get_or padded 0 []))
    ∷ ("cpu_slave1_version", text (get_or padded 1 []))
    ∷ ("cpu_slave2_version", text (get_or padded 2 []))
    ∷ []

unfoldable pub decode_selectable_currents : List Text → String → Section
decode_selectable_currents tokens key =
    (key, ints (map (λ t. safe_int t (pos 0)) (keep_if (λ t. not (t == [])) tokens))) ∷ []

unfoldable pub decode_energy : Text → Text → Section
decode_energy native payload =
    let value = int (safe_int (strip payload) (pos 0)) in
    let period = text (drop 2 native) in
    if native == codes "ET"
    then ("total_energy_kwh", value) ∷ []
    else if starts_with native (codes "EY")
    then ("yearly_energy_kwh", value) ∷ ("energy_period", period) ∷ []
    else if starts_with native (codes "EM")
    then ("monthly_energy_kwh", value) ∷ ("energy_period", period) ∷ []
    else if starts_with native (codes "ED")
    then ("daily_energy_wh", value) ∷ ("energy_period", period) ∷ []
    else ("energy_value", value) ∷ []

-- `[t.strip() for t in payload.split(",")]`
unfoldable pub tokens_of : Text → List Text
tokens_of payload = map strip (split_at b',' payload)

-- `payload_bytes.decode("ascii", errors="ignore").strip()`
unfoldable pub payload_text : List ℕ → Text
payload_text bytes = strip (keep_if (λ c. ltb c 128) bytes)

module _ (ratio_text : ℤ → ℤ → Text) where
  -- The decoders of a list of tokens.
  unfoldable pub decode_tokens : Text → List Text → Section
  decode_tokens native tokens =
      if native == codes "GS"
      then decode_gs ratio_text tokens
      else if native == codes "PIRI"
      then decode_piri tokens
      else if native == codes "FWS"
      then decode_fws tokens
      else if native == codes "FLAG"
      then decode_flag tokens
      else if native == codes "DI"
      then decode_di tokens
      else if native == codes "VFW"
      then decode_vfw tokens
      else if native == codes "MCHGCR"
      then decode_selectable_currents tokens "max_charging_current_options"
      else if native == codes "MUCHGCR"
      then decode_selectable_currents tokens "max_ac_charging_current_options"
      else ("raw_tokens", texts tokens) ∷ []

  unfoldable pub decode_payload : Text → Text → Section
  decode_payload native payload =
      if native == codes "MOD"
      then decode_mod payload
      else if native == codes "PI"
      then ("protocol_id", text payload) ∷ []
      else if native == codes "ID"
      then decode_id payload
      else if native == codes "T"
      then decode_t payload
      else if native == codes "ET"
          || (starts_with native (codes "ED")
              || starts_with native (codes "EM")
              || starts_with native (codes "EY"))
      then decode_energy native payload
      else decode_tokens native (tokens_of payload)

  unfoldable pub decode_pi18_response : Text → List ℕ → Section
  decode_pi18_response command raw =
      let payload = payload_text (strip_pi18_frame raw) in
      if raw == [] || raw == codes "null"
      then ("error", text (codes "null response received. Command not accepted.")) ∷ []
      else if take 2 raw == codes "^1"
      then ("status", text (codes "ACK")) ∷ []
      else if take 2 raw == codes "^0"
      then ("status", text (codes "NAK")) ∷ []
      else if payload == []
      then ("error", text (codes "empty PI18 payload")) ∷ []
      else decode_payload (native_command command) payload
