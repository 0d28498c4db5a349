-- ===== src/Modbus/Projections.antt =====
-- api/protocols/modbus_rtu.py: the projections of an SMG-II snapshot. A value that is read as a tenth or a
-- hundredth of its register is shown from the register; `hundredths_as_tenths n` is `f"{n / 100.0:.1f}"`,
-- whose rounding is that of floats, as a parameter.
use home_assistant_dess_moni.Base.{
  ℕ, suc, ◌/◌, ◌%◌, ◌++◌, String, [], ◌∷◌, Option, some, if◌then◌else◌, ◌==◌, string_eq,
}
use home_assistant_dess_moni.Base.Text.{Text, codes}
use home_assistant_dess_moni.Base.Decimal.{decimal, padded}
use home_assistant_dess_moni.Base.Int.{ℤ, pos, negsuc, abs, neg, int_eq}
use home_assistant_dess_moni.Base.Dict.{Dict, lookup, lookup_or}
use home_assistant_dess_moni.Values
use home_assistant_dess_moni.Values.{Value, text, Section}
use home_assistant_dess_moni.Pi18.Numbers.{int_padded, tenths_text, tenths_text_2, whole_text}
use home_assistant_dess_moni.Modbus.Smg2.{Fields}

abbrev pub number_in : Option (Option Value) → ℤ
number_in (some (some (Values.int n))) = n
number_in (some (some (Values.decimal n k))) = n
number_in _ = pos 0

-- The register behind `s[key]`, which the tables of the snapshot have.
unfoldable pub number : Fields → String → ℤ
number s key = number_in (lookup key s)

-- `int(n / 10.0)`
unfoldable pub whole_part : ℤ → ℤ
whole_part (pos n) = pos (n / 10)
whole_part (negsuc n) = neg (pos (suc n / 10))

-- `max(0, n)`
abbrev pub at_least_0 : ℤ → ℕ
at_least_0 (pos n) = n
at_least_0 (negsuc n) = 0

abbrev pub hundredths_of : ℕ → Text
hundredths_of n = decimal (n / 100) ++ b'.' ∷ padded 2 (n % 100)

-- `f"{n / 100.0:.2f}"`
unfoldable pub hundredths_text : ℤ → Text
hundredths_text (pos n) = hundredths_of n
hundredths_text (negsuc n) = b'-' ∷ hundredths_of (suc n)

abbrev pub output_priority_map : Dict ℤ Text
output_priority_map =
    (pos 0, codes "UtilityFirst") ∷ (pos 1, codes "SolarFirst") ∷ (pos 2, codes "SBU") ∷ []

abbrev pub charger_priority_map : Dict ℤ Text
charger_priority_map =
    (pos 0, codes "UtilityFirst")
    ∷ (pos 1, codes "SolarFirst")
    ∷ (pos 2, codes "SolarAndUtility")
    ∷ (pos 3, codes "OnlySolar")
    ∷ []

unfoldable pub smg2_to_qpigs : (ℤ → Text) → Fields → Section
smg2_to_qpigs hundredths_as_tenths s =
    let charging = at_least_0 (whole_part (number s "battery_current")) in
    let discharging = at_least_0 (whole_part (neg (number s "battery_current"))) in
    ("grid_voltage", text (tenths_text (number s "mains_voltage")))
    ∷ ("grid_frequency", text (hundredths_as_tenths (number s "mains_frequency")))
    ∷ ("ac_output_voltage", text (tenths_text (number s "output_voltage")))
    ∷ ("ac_output_frequency", text (hundredths_text (number s "output_frequency")))
    ∷ ("output_apparent_power", text (int_padded 4 (pos (abs (number s "output_active_power")))))
    ∷ ("output_active_power", text (int_padded 4 (pos (abs (number s "output_active_power")))))
    ∷ ("load_percent", text (int_padded 3 (number s "load_percent")))
    ∷ ("bus_voltage", text (codes "400"))
    ∷ ("battery_voltage", text (tenths_text_2 (number s "battery_voltage")))
    ∷ ("battery_charging_current", text (int_padded 3 (pos charging)))
    ∷ ("battery_capacity", text (codes "100"))
    ∷ ("inverter_heat_sink_temperature", text (whole_text (number s "temp_inverter")))
    ∷ ("inverter_dcdc_module_temperature", text (whole_text (number s "temp_dcdc")))
    ∷ ("pv_input_current", text (tenths_text (number s "pv_current")))
    ∷ ("pv_input_voltage", text (tenths_text (number s "pv_voltage")))
    ∷ ("scc_battery_voltage", text (tenths_text_2 (number s "battery_voltage")))
    ∷ ("battery_discharge_current", text (int_padded 5 (pos discharging)))
    ∷ ("device_status_bits_b7_b0", text (codes "00010000"))
    ∷ ("battery_voltage_offset", text (codes "00"))
    ∷ ("eeprom_version", text (codes "00"))
    ∷ ("pv_charging_power", text (int_padded 5 (number s "pv_power")))
    ∷ ("device_status_bits_b10_b8", text (codes "010"))
    ∷ ("grid_ac_in_power", text (int_padded 5 (pos (abs (number s "mains_power")))))
    ∷ []

unfoldable pub smg2_to_qpiri : Fields → Section
smg2_to_qpiri c =
    let ac_range_name : Text =
      if number c "input_voltage_range" == pos 1 then codes "UPS" else codes "Appliance" in
    ("rated_grid_voltage", text (codes "230.0"))
    ∷ ("rated_input_current", text (codes "15.2"))
    ∷ ("rated_ac_output_voltage", text (codes "230.0"))
    ∷ ("rated_output_frequency", text (codes "50.0"))
    ∷ ("rated_output_current", text (codes "15.2"))
    ∷ ("rated_output_apparent_power", text (codes "4000"))
    ∷ ("rated_output_active_power", text (codes "4000"))
    ∷ ("rated_battery_voltage", text (codes "24.0"))
    ∷ (
      "low_battery_to_ac_bypass_voltage",
      text (tenths_text (number c "battery_low_protection_mains")),
    )
    ∷ ("shut_down_battery_voltage", text (tenths_text (number c "battery_low_protection_offgrid")))
    ∷ ("bulk_charging_voltage", text (tenths_text (number c "max_charge_voltage")))
    ∷ ("float_charging_voltage", text (tenths_text (number c "float_charge_voltage")))
    ∷ ("battery_type", text (codes "UserDefined"))
    ∷ (
      "max_utility_charging_current",
      text (int_padded 2 (whole_part (number c "max_mains_charging_current"))),
    )
    ∷ ("max_charging_current", text (int_padded 3 (whole_part (number c "max_charging_current"))))
    ∷ ("ac_input_voltage_range", text (ac_range_name))
    ∷ (
      "output_source_priority",
      text (lookup_or (number c "output_priority") (codes "UtilityFirst") output_priority_map),
    )
    ∷ (
      "charger_source_priority",
      text (
          lookup_or (number c "battery_charging_priority") (codes "UtilityFirst")
            charger_priority_map),
    )
    ∷ ("parallel_max_number", text (codes "6"))
    ∷ ("reserved_uu", text (codes "01"))
    ∷ ("reserved_v", text (codes "0"))
    ∷ ("parallel_mode", text (codes "Master"))
    ∷ (
      "high_battery_voltage_to_battery_mode",
      text (tenths_text (number c "battery_discharge_recovery_mains")),
    )
    ∷ ("solar_work_condition_in_parallel", text (codes "0"))
    ∷ ("solar_max_charging_power_auto_adjust", text (codes "1_"))
    ∷ ("rated_battery_capacity", text (codes "200"))
    ∷ ("reserved_b", text (codes "0"))
    ∷ ("reserved_ccc", text (codes "0"))
    ∷ []
