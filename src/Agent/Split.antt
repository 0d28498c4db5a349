-- ===== src/Agent/Split.antt =====
-- `split_raw_by_command` of api/protocols/agent_http.py. `float` and `int_of` are `float(v)` and `int(v)`,
-- `none` where they raise, and `show2` is `f"{x:.2f}"`; modes of operation are texts.
use home_assistant_dess_moni.Base.{
  ℕ, zero, suc, ◌+◌, Bool, false, not, ◌&&◌, ◌||◌, String, List, [], ◌∷◌, Option, none, some,
  if◌then◌else◌, ◌==◌, string_eq, nat_eq, list_eq, leb, map, length,
}
use Prim.Native.String.{String}
use home_assistant_dess_moni.Base.Text.{Text, codes, starts_with}
use home_assistant_dess_moni.Base.Int.{ℤ, int_eq, pos}
use home_assistant_dess_moni.Base.Float.{Float, lt, zero_f, max_f}
use home_assistant_dess_moni.Base.Dict.{lookup, insert, contains}
use home_assistant_dess_moni.Values.{Value, text, flag, Section}
use home_assistant_dess_moni.Energy.Estimates.{is_falsy}

abbrev pub qpiri_field_names : List String
qpiri_field_names =
    "rated_grid_voltage" ∷ "rated_input_current" ∷ "rated_ac_output_voltage"
    ∷ "rated_output_frequency" ∷ "rated_output_current" ∷ "rated_output_apparent_power"
    ∷ "rated_output_active_power" ∷ "rated_battery_voltage" ∷ "low_battery_to_ac_bypass_voltage"
    ∷ "shut_down_battery_voltage" ∷ "bulk_charging_voltage" ∷ "float_charging_voltage"
    ∷ "battery_type" ∷ "max_utility_charging_current" ∷ "max_charging_current"
    ∷ "ac_input_voltage_range" ∷ "output_source_priority" ∷ "charger_source_priority"
    ∷ "parallel_max_number" ∷ "parallel_mode" ∷ "high_battery_voltage_to_battery_mode"
    ∷ "solar_work_condition_in_parallel" ∷ "solar_max_charging_power_auto_adjust"
    ∷ "rated_battery_capacity" ∷ []

-- `key in names`
abbrev pub is_key_of : String → List String → Bool
is_key_of key [] = false
is_key_of key (name ∷ names) = name == key || is_key_of key names

-- `key.startswith(prefix)`
abbrev pub has_prefix : String → String → Bool
has_prefix prefix key = starts_with (codes key) (codes prefix)

-- `key[n:]`
abbrev pub drop_chars : ℕ → String → String
drop_chars zero key = key
drop_chars (suc n) String.[] = String.[]
drop_chars (suc n) (String.◌∷◌ c key) = drop_chars n key

-- `{key[len(prefix):]: v for key, v in raw.items() if key.startswith(prefix)}`
unfoldable pub unprefixed : String → Section → Section
unprefixed prefix [] = []
unprefixed prefix ((key, v) ∷ raw) =
    let rest = unprefixed prefix raw in
    if has_prefix prefix key then (drop_chars (length (codes prefix)) key, v) ∷ rest else rest

-- `{key: v for key, v in raw.items() if keep(key)}`
unfoldable pub only : (String → Bool) → Section → Section
only keep [] = []
only keep ((key, v) ∷ raw) = let rest = only keep raw in if keep key then (key, v) ∷ rest else rest

unfoldable pub qpiri_part : Section → Section
unfolding unprefixed only
qpiri_part raw = elim (unprefixed "qpiri." raw) [
  | [] ↦ only (λ key. is_key_of key qpiri_field_names) raw
  | entry ∷ prefixed ↦ entry ∷ prefixed
]

abbrev pub is_fault_key : String → Bool
is_fault_key key = key == "fault_code" || key == "fault_description"

abbrev pub is_qpigs_key : String → Bool
is_qpigs_key key =
    not (
      has_prefix "qpiri." key
      || has_prefix "qmod." key
      || has_prefix "qpigs2." key
      || has_prefix "warn_" key)
    && not (is_key_of key qpiri_field_names)
    && not (is_fault_key key)

-- `d.setdefault(key, v)`
abbrev pub set_default : String → Value → Section → Section
set_default key v d = if contains key d then d else insert key v d

abbrev pub text_of : Option Value → Text
text_of (some (text t)) = t
text_of _ = []

-- `s.lower()`
abbrev pub lower : Text → Text
lower = map (λ c. if leb b'A' c && leb c b'Z' then c + 32 else c)

-- `(raw.get("operating_mode") or raw.get("qmod.operating_mode") or "").lower()`
unfoldable pub mode_of : Section → Text
mode_of raw = elim (text_of (lookup "operating_mode" raw)) [
  | [] ↦ lower (text_of (lookup "qmod.operating_mode" raw))
  | c ∷ s ↦ lower (c ∷ s)
]

abbrev pub bit : Bool → ℕ
bit b = if b then b'1' else b'0'

module _ (F : Float) (float : Value → Option F.Real) (int_of : Value → Option ℤ)
    (show2 : F.Real → Text) where
  open F use {Real, le, neg, lit}

  -- `bool(int(v))`, or `bool(v)` where that raises.
  abbrev pub warning_flag : Value → Bool
  warning_flag v = elim (int_of v) [ none ↦ not (is_falsy v) | some n ↦ not (n == pos 0) ]

  unfoldable pub qfws_part : Section → Section
  qfws_part [] = []
  qfws_part ((key, v) ∷ raw) =
      let rest = qfws_part raw in
      if has_prefix "warn_" key
      then (key, flag (warning_flag v)) ∷ rest
      else if is_fault_key key
      then (key, v) ∷ rest
      else rest

  -- `float(d.get(key, 0) or 0)`, and 0.0 where it raises.
  unfoldable pub safe_float : Section → String → Real
  safe_float d key = elim (lookup key d) [
    | none ↦ zero_f F
    | some v ↦
        if is_falsy v
        then zero_f F
        else (elim (float v) as (λ _. Real) [ none ↦ zero_f F | some x ↦ x ])
  ]

  unfoldable pub synth_b7_b0 : Section → Text
  unfolding safe_float mode_of
  synth_b7_b0 raw =
      let mode = mode_of raw in
      let inverter_on =
        mode == codes "mains"
        || mode == codes "offgrid"
        || mode == codes "battery"
        || mode == codes "line"
        || mode == codes "bypass" in
      let line_fail = lt F (safe_float raw "grid_voltage") (lit 50 0) in
      let overload = lt F (lit 100 0) (safe_float raw "load_percent") in
      bit (mode == codes "fault")
      ∷ b'0'
      ∷ b'0'
      ∷ bit line_fail
      ∷ b'0'
      ∷ b'0'
      ∷ bit overload
      ∷ bit inverter_on
      ∷ []

  -- `a or b`
  abbrev pub or_else : Real → Real → Real
  or_else a b = if le a (zero_f F) && le (zero_f F) a then b else a

  unfoldable pub synth_b10_b8 : Section → Section → Text
  unfolding safe_float
  synth_b10_b8 qpigs raw =
      let charging = lt F (lit 1 1) (safe_float qpigs "battery_current") in
      let ac = charging && lt F (lit 50 0) (safe_float raw "grid_voltage") in
      let pv = or_else (safe_float raw "pv_charging_power") (safe_float raw "pv_input_power") in
      bit charging ∷ bit ac ∷ bit (lt F (lit 5 0) pv) ∷ []

  abbrev pub signed_current : Value → Real
  signed_current v = elim (float v) as (λ _. Real) [ none ↦ zero_f F | some x ↦ x ]

  -- The two currents of a signed one, where either is missing.
  abbrev pub with_currents : Section → Option Value → Section
  with_currents d none = d
  with_currents d (some v) =
      let i = signed_current v in
      if contains "battery_charging_current" d && contains "battery_discharge_current" d
      then d
      else set_default "battery_discharge_current" (text (show2 (max_f F (zero_f F) (neg i))))
          (set_default "battery_charging_current" (text (show2 (max_f F (zero_f F) i))) d)

  unfoldable pub qpigs_part : Section → Section
  unfolding only
  qpigs_part raw =
      let d = only is_qpigs_key raw in
      let split = with_currents d (lookup "battery_current" d) in
      let b7 = set_default "device_status_bits_b7_b0" (text (synth_b7_b0 raw)) split in
      set_default "device_status_bits_b10_b8" (text (synth_b10_b8 b7 raw)) b7

  unfoldable pub split_raw_by_command : Section → Text → Section
  unfolding qpiri_part qfws_part qpigs_part unprefixed
  split_raw_by_command raw command =
      if command == codes "QPIRI"
      then qpiri_part raw
      else if command == codes "QFWS"
      then qfws_part raw
      else if command == codes "QPIGS"
      then qpigs_part raw
      else if command == codes "QMOD"
      then unprefixed "qmod." raw
      else if command == codes "QPIGS2"
      then unprefixed "qpigs2." raw
      else []
