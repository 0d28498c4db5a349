-- ===== src/Sensors/Summary.antt =====
-- `DirectInverterFaultSummarySensor` of sensors/direct_sensor.py. `show` is `f"{v}"`.
use Prim.Native.String.{String}
use home_assistant_dess_moni.Base.{
  ℕ, zero, suc, ◌+◌, ◌-◌, ◌/◌, ◌%◌, ◌^◌, Bool, true, not, ◌&&◌, ◌||◌, List, [], ◌∷◌, ◌++◌, Option,
  none, some, ltb, length, map, replicate, if◌then◌else◌, string_eq,
}
use home_assistant_dess_moni.Base.Text.{Text, codes}
use home_assistant_dess_moni.Base.Int.{ℤ, pos, negsuc, neg}
use home_assistant_dess_moni.Base.Decimal.{decimal}
use home_assistant_dess_moni.Base.Dict.{lookup, insert}
use home_assistant_dess_moni.Values.{Value, int, flag, Section}
use home_assistant_dess_moni.Decode.Tokens.{is_named}
use home_assistant_dess_moni.Agent.Split.{has_prefix}
use home_assistant_dess_moni.Sensors.Binary.{merged, append_string, is_truthy, is_code}

abbrev pub warning_severity_order : List (String × String)
warning_severity_order =
    ("fault_active", "Fault Active")
    ∷ ("inverter_fault", "Inverter Fault")
    ∷ ("battery_under_shutdown", "Battery Shutdown")
    ∷ ("battery_open", "Battery Disconnected")
    ∷ ("battery_short", "Battery Short Circuit")
    ∷ ("battery_over_current", "Battery Overcurrent")
    ∷ ("self_test_fail", "Self-test Fail")
    ∷ ("inverter_over_current", "Inverter Overcurrent")
    ∷ ("inverter_negative_power", "Inverter Negative Power")
    ∷ ("bus_over", "Bus Overvoltage")
    ∷ ("bus_under", "Bus Undervoltage")
    ∷ ("bus_soft_fail", "Bus Soft-start Fail")
    ∷ ("over_temperature", "Over Temperature")
    ∷ ("inverter_over_temperature", "Inverter Over Temperature")
    ∷ ("dcdc_over_temperature", "DC-DC Over Temperature")
    ∷ ("pv_over_temperature", "PV Over Temperature")
    ∷ ("eeprom_fault", "EEPROM Fault")
    ∷ ("current_sensor_fail", "Current Sensor Fail")
    ∷ ("fan_locked", "Fan Locked")
    ∷ ("overload", "Overload")
    ∷ ("battery_voltage_high", "Battery Overvoltage")
    ∷ ("battery_low_alarm", "Battery Low")
    ∷ ("battery_too_low_to_charge", "Battery Too Low to Charge")
    ∷ ("battery_type_incompatible", "Battery Type Mismatch")
    ∷ ("inverter_voltage_too_high", "Inverter Output Overvoltage")
    ∷ ("inverter_voltage_too_low", "Inverter Output Undervoltage")
    ∷ ("op_dc_voltage_over", "Output DC Overvoltage")
    ∷ ("pv_voltage_high", "PV Overvoltage")
    ∷ ("pv_low_voltage", "PV Voltage Too Low")
    ∷ ("pv_over_current", "PV Overcurrent")
    ∷ ("mppt_overload_fault", "MPPT Overload")
    ∷ ("opv_short", "Output Short")
    ∷ ("inverter_soft_fail", "Inverter Soft-start Fail")
    ∷ ("mains_low_frequency", "Grid Low Frequency")
    ∷ ("mains_over_frequency", "Grid Over Frequency")
    ∷ ("mains_waveform_abnormal", "Grid Waveform Abnormal")
    ∷ ("parallel_host_lost", "Parallel Host Lost")
    ∷ ("parallel_sync_abnormal", "Parallel Sync Lost")
    ∷ ("parallel_battery_diff", "Parallel Battery Mismatch")
    ∷ ("parallel_mode_inconsistent", "Parallel Mode Mismatch")
    ∷ ("parallel_version_incompatible", "Parallel Version Mismatch")
    ∷ ("parallel_comm_interrupted", "Parallel Comm Lost")
    ∷ ("battery_eq_charging", "Battery Equalize Charging")
    ∷ ("pv_energy_low", "PV Energy Low")
    ∷ ("power_limit", "Power Limiting")
    ∷ ("mppt_overload_warning", "MPPT Overload Warning")
    ∷ ("line_fail", "Line Fail")
    ∷ ("battery_current_bias", "Battery Current Bias")
    ∷ ("inverter_current_bias", "Inverter Current Bias")
    ∷ ("output_current_bias", "Output Current Bias")
    ∷ ("pv_current_bias", "PV Current Bias")
    ∷ []

-- `f"{n:08X}"` of a number that is not negative, digit by digit.
abbrev upper_hex : ℕ → ℕ
upper_hex d = if ltb d 10 then b'0' + d else b'A' + (d - 10)

abbrev upper_hex_from : ℕ → ℕ → Text → Text
upper_hex_from zero n rest = rest
upper_hex_from (suc f) n rest =
    let more = upper_hex_from f (n / 16) (upper_hex (n % 16) ∷ rest) in
    if ltb n 16 then upper_hex n ∷ rest else more

unfoldable pub hex_padded : ℕ → ℕ → Text
hex_padded width n =
    let digits = upper_hex_from (suc n) n [] in replicate (width - length digits) b'0' ++ digits

-- `f"{n:08X}"`: the sign counts.
unfoldable pub hex8 : ℤ → Text
unfolding hex_padded
hex8 (pos n) = hex_padded 8 n
hex8 (negsuc n) = b'-' ∷ hex_padded 7 (suc n)

-- `int(v)` of a code.
abbrev pub whole_of : Value → ℤ
whole_of (int n) = n
whole_of (flag true) = pos 1
whole_of (Value.decimal (pos n) k) = pos (n / 10 ^ k)
whole_of (Value.decimal (negsuc n) k) = neg (pos (suc n / 10 ^ k))
whole_of _ = pos 0

unfoldable pub flag_set : Section → String → Bool
flag_set flags base_name =
    is_truthy (lookup base_name flags) || is_truthy (lookup (append_string "warn_" base_name) flags)

-- The walk for the worst flag.
unfoldable pub first_active : List (String × String) → Section → Option String
unfolding flag_set
first_active [] flags = none
first_active ((key, display) ∷ order) flags =
    if flag_set flags key then some display else first_active order flags

abbrev pub add_key : Bool → String → List String → List String
add_key active key found = if active && not (is_named key found) then key ∷ found else found

unfoldable pub catalogued : List (String × String) → Section → List String → List String
unfolding flag_set
catalogued [] flags found = found
catalogued ((key, display) ∷ order) flags found =
    catalogued order flags (add_key (flag_set flags key) key found)

unfoldable pub uncatalogued : List String → Section → List String → List String
uncatalogued cataloged_warn [] found = found
uncatalogued cataloged_warn ((key, v) ∷ flags) found =
    let active =
      has_prefix "warn_" key && is_truthy (some v) && not (is_named key cataloged_warn) in
    uncatalogued cataloged_warn flags (add_key active key found)

-- The set `active_keys`, each key once.
unfoldable pub active_keys : List (String × String) → Section → List String
unfolding catalogued uncatalogued
active_keys order flags =
    let cataloged_warn = map (λ (entry : String × String). append_string "warn_" entry.0) order in
    uncatalogued cataloged_warn flags (catalogued order flags [])

abbrev pub summary_of : Option String → ℕ → Text
summary_of worst zero = codes "OK"
summary_of none (suc n) = codes "Warning: " ++ decimal (suc n) ++ codes " active"
summary_of (some worst) (suc zero) = codes "Warning: " ++ codes worst
summary_of (some worst) (suc (suc n)) =
    codes "Warning: " ++ codes worst ++ codes " (+" ++ decimal (suc n) ++ codes " more)"

module _ (show : Value → Text) where
  abbrev shown_or_none : Option Value → Text
  shown_or_none none = codes "None"
  shown_or_none (some v) = show v

  abbrev code_or_0 : Option Value → ℤ
  code_or_0 none = pos 0
  code_or_0 (some v) = whole_of v

  -- The native value.
  unfoldable pub fault_summary : Section → Section → Text
  unfolding merged first_active active_keys
  fault_summary qpiws qfws =
      let flags = merged qpiws qfws in
      let fault_code = lookup "fault_code" flags in
      let fault_description = lookup "fault_description" flags in
      let warning_code = lookup "warning_code" flags in
      if is_code fault_code
      then codes "Fault: "
        ++ shown_or_none (if is_truthy fault_description then fault_description else fault_code)
      else if is_code warning_code
      then codes "Warning: SMG-II code 0x" ++ hex8 (code_or_0 warning_code)
      else summary_of (first_active warning_severity_order flags)
          (length (active_keys warning_severity_order flags))

-- `_flag_attrs`, without the count, and the count.
unfoldable pub attrs_of : Section → Section
attrs_of [] = []
attrs_of ((key, v) ∷ flags) =
    let rest = attrs_of flags in if has_prefix "_reserved_" key then rest else (key, v) ∷ rest

unfoldable pub count_active : Section → ℕ
count_active [] = 0
count_active ((key, flag true) ∷ attrs) = suc (count_active attrs)
count_active ((key, v) ∷ attrs) = count_active attrs

unfoldable pub flag_attrs : Section → Section
unfolding attrs_of count_active
flag_attrs flags =
    let attrs = attrs_of flags in insert "active_count" (int (pos (count_active attrs))) attrs
