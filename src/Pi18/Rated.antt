-- ===== src/Pi18/Rated.antt =====
-- `_decode_piri` of api/decoders/pi18.py.
use home_assistant_dess_moni.Base.{String, List, [], ◌∷◌, nat_eq, list_eq, string_eq}
use home_assistant_dess_moni.Base.Text.{Text, codes}
use home_assistant_dess_moni.Base.Int.{ℤ, negsuc, int_eq}
use home_assistant_dess_moni.Base.Dict.{Dict, lookup_or}
use home_assistant_dess_moni.Values.{text, Section}
use home_assistant_dess_moni.Decode.Enums.{battery_type, ac_input_voltage_range}
use home_assistant_dess_moni.Pi18.Tables.{piri_fields, output_priority, charger_priority}
use home_assistant_dess_moni.Pi18.Numbers.{safe_int, int_padded, tenths_text}
use home_assistant_dess_moni.Pi18.Fields.{raw_of, field, number, enum_name}

-- `table.get(_safe_int(code, -1), code)`
unfoldable pub priority_name : Dict ℤ Text → Text → Text
priority_name table code = lookup_or (safe_int code (negsuc 0)) code table

-- `s or default`
abbrev pub text_or : Text → Text → Text
text_or [] default = default
text_or (c ∷ s) default = c ∷ s

unfoldable pub piri_section : Dict String Text → Section
unfolding priority_name
piri_section raw =
    let battery =
      enum_name battery_type (field raw "battery_type_code") (field raw "battery_type_code") in
    let ac_range =
      enum_name ac_input_voltage_range (field raw "input_voltage_range_code")
        (field raw "input_voltage_range_code") in
    let output = priority_name output_priority (field raw "output_priority_code") in
    let charger = priority_name charger_priority (field raw "charger_priority_code") in
    ("rated_grid_voltage", text (tenths_text (number raw "rated_grid_voltage")))
    ∷ ("rated_input_current", text (tenths_text (number raw "rated_input_current")))
    ∷ ("rated_ac_output_voltage", text (tenths_text (number raw "rated_ac_output_voltage")))
    ∷ ("rated_output_frequency", text (tenths_text (number raw "rated_output_frequency")))
    ∷ ("rated_output_current", text (tenths_text (number raw "rated_output_current")))
    ∷ (
      "rated_output_apparent_power",
      text (int_padded 4 (number raw "rated_output_apparent_power")),
    )
    ∷ ("rated_output_active_power", text (int_padded 4 (number raw "rated_output_active_power")))
    ∷ ("rated_battery_voltage", text (tenths_text (number raw "rated_battery_voltage")))
    ∷ (
      "low_battery_to_ac_bypass_voltage",
      text (tenths_text (number raw "battery_redischarge_voltage")),
    )
    ∷ ("shut_down_battery_voltage", text (tenths_text (number raw "battery_under_voltage")))
    ∷ ("bulk_charging_voltage", text (tenths_text (number raw "battery_bulk_voltage")))
    ∷ ("float_charging_voltage", text (tenths_text (number raw "battery_float_voltage")))
    ∷ ("battery_type", text (battery))
    ∷ ("max_utility_charging_current", text (int_padded 2 (number raw "max_ac_charging_current")))
    ∷ ("max_charging_current", text (int_padded 3 (number raw "max_charging_current")))
    ∷ ("ac_input_voltage_range", text (ac_range))
    ∷ ("output_source_priority", text (output))
    ∷ ("charger_source_priority", text (charger))
    ∷ ("parallel_max_number", text (text_or (field raw "parallel_max") (codes "0")))
    ∷ ("reserved_uu", text (codes "00"))
    ∷ ("reserved_v", text (codes "0"))
    ∷ ("parallel_mode", text (codes "Standalone"))
    ∷ (
      "high_battery_voltage_to_battery_mode",
      text (tenths_text (number raw "battery_recharge_voltage")),
    )
    ∷ ("solar_work_condition_in_parallel", text (codes "0"))
    ∷ ("solar_max_charging_power_auto_adjust", text (codes "1_"))
    ∷ ("rated_battery_capacity", text (codes "200"))
    ∷ ("reserved_b", text (codes "0"))
    ∷ ("reserved_ccc", text (codes "0"))
    ∷ []

unfoldable pub decode_piri : List Text → Section
unfolding piri_section
decode_piri tokens = piri_section (raw_of piri_fields tokens)
