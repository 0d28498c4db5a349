-- ===== src/Pi18/Status.antt =====
-- `_decode_gs` of api/decoders/pi18.py. The quotient of the two floats for a current, as its f-string
-- shows it, is a parameter: `ratio_text p v` is `f"{p / (v / 10.0):.1f}"` for a `v` other than 0.
use home_assistant_dess_moni.Base.{String, List, [], ◌∷◌, if◌then◌else◌, nat_eq, list_eq, string_eq}
use home_assistant_dess_moni.Base.Text.{Text, codes}
use home_assistant_dess_moni.Base.Int.{ℤ}
use home_assistant_dess_moni.Base.Dict.{Dict}
use home_assistant_dess_moni.Values.{text, Section}
use home_assistant_dess_moni.Pi18.Tables.{
  gs_fields, mppt_status, battery_power_direction, dcac_power_direction, line_power_direction,
}
use home_assistant_dess_moni.Pi18.Numbers.{
  is_nonzero, int_padded, tenths_text, tenths_text_2, whole_text,
}
use home_assistant_dess_moni.Pi18.Fields.{raw_of, field, number, enum_name}

module _ (ratio_text : ℤ → ℤ → Text) where
  unfoldable pub current_text : ℤ → ℤ → Text
  current_text p v = if is_nonzero v then ratio_text p v else codes "0.0"

  unfoldable pub gs_section : Dict String Text → Section
  unfolding current_text
  gs_section raw =
      let pv_v = number raw "pv_input_voltage" in
      let pv_p = number raw "pv_charging_power" in
      let pv2_v = number raw "_pv2_input_voltage" in
      let pv2_p = number raw "_pv2_input_power" in
      let status_b7_b0 = codes "00010001" in
      let status_b10_b8 = codes "010" in
      ("grid_voltage", text (tenths_text (number raw "grid_voltage")))
      ∷ ("grid_frequency", text (tenths_text (number raw "grid_frequency")))
      ∷ ("ac_output_voltage", text (tenths_text (number raw "ac_output_voltage")))
      ∷ ("ac_output_frequency", text (tenths_text (number raw "ac_output_frequency")))
      ∷ ("output_apparent_power", text (int_padded 4 (number raw "output_apparent_power")))
      ∷ ("output_active_power", text (int_padded 4 (number raw "output_active_power")))
      ∷ ("load_percent", text (int_padded 3 (number raw "load_percent")))
      ∷ ("bus_voltage", text (codes "400"))
      ∷ ("battery_voltage", text (tenths_text_2 (number raw "battery_voltage")))
      ∷ ("battery_charging_current", text (int_padded 3 (number raw "battery_charging_current")))
      ∷ ("battery_capacity", text (int_padded 3 (number raw "battery_capacity")))
      ∷ (
        "inverter_heat_sink_temperature",
        text (whole_text (number raw "inverter_heat_sink_temperature")),
      )
      ∷ ("pv_input_current", text (current_text pv_p pv_v))
      ∷ ("pv_input_voltage", text (tenths_text pv_v))
      ∷ ("scc_battery_voltage", text (tenths_text_2 (number raw "scc_battery_voltage")))
      ∷ ("battery_discharge_current", text (int_padded 5 (number raw "battery_discharge_current")))
      ∷ ("device_status_bits_b7_b0", text (status_b7_b0))
      ∷ ("battery_voltage_offset", text (codes "00"))
      ∷ ("eeprom_version", text (codes "00"))
      ∷ ("pv_charging_power", text (int_padded 5 pv_p))
      ∷ ("device_status_bits_b10_b8", text (status_b10_b8))
      ∷ ("pv2_input_power", text (int_padded 5 pv2_p))
      ∷ ("pv2_input_voltage", text (tenths_text pv2_v))
      ∷ ("pv2_input_current", text (current_text pv2_p pv2_v))
      ∷ ("mppt1_temperature", text (whole_text (number raw "_mppt1_temp")))
      ∷ ("mppt2_temperature", text (whole_text (number raw "_mppt2_temp")))
      ∷ ("scc2_battery_voltage", text (tenths_text_2 (number raw "_battery_voltage_scc2")))
      ∷ (
        "mppt1_status",
        text (enum_name mppt_status (field raw "_mppt1_status") (codes "Abnormal")),
      )
      ∷ (
        "mppt2_status",
        text (enum_name mppt_status (field raw "_mppt2_status") (codes "Abnormal")),
      )
      ∷ (
        "battery_power_direction",
        text (enum_name battery_power_direction (field raw "_battery_power_dir") (codes "Idle")),
      )
      ∷ (
        "dcac_power_direction",
        text (enum_name dcac_power_direction (field raw "_dcac_power_dir") (codes "Idle")),
      )
      ∷ (
        "line_power_direction",
        text (enum_name line_power_direction (field raw "_line_power_dir") (codes "Idle")),
      )
      ∷ []

  unfoldable pub decode_gs : List Text → Section
  unfolding gs_section
  decode_gs tokens = gs_section (raw_of gs_fields tokens)
