-- ===== src/Pi18/Tables.antt =====
-- api/decoders/pi18.py: its tables, and the PI18 enumerations of api/decoders/enums.py.
use home_assistant_dess_moni.Base.{ℕ, String, List, [], ◌∷◌}
use home_assistant_dess_moni.Base.Text.{Text, codes}
use home_assistant_dess_moni.Base.Int.{ℤ, pos}
use home_assistant_dess_moni.Base.Dict.{Dict}
use home_assistant_dess_moni.Values.{OperatingMode, power_on, standby, line, battery, fault}

abbrev member : String → String → Text × Text
member code name = (codes code, codes name)

abbrev coded : ℕ → String → ℤ × Text
coded code name = (pos code, codes name)

abbrev pub logical_to_native : Dict Text Text
logical_to_native =
    member "QPIGS" "GS"
    ∷ member "QPIRI" "PIRI"
    ∷ member "QMOD" "MOD"
    ∷ member "QPI" "PI"
    ∷ member "QID" "ID"
    ∷ member "QVFW" "VFW"
    ∷ member "QFWS" "FWS"
    ∷ member "QFLAG" "FLAG"
    ∷ member "QDI" "DI"
    ∷ member "QMCHGCR" "MCHGCR"
    ∷ member "QMUCHGCR" "MUCHGCR"
    ∷ []

abbrev pub gs_fields : List String
gs_fields =
    "grid_voltage" ∷ "grid_frequency" ∷ "ac_output_voltage" ∷ "ac_output_frequency"
    ∷ "output_apparent_power" ∷ "output_active_power" ∷ "load_percent" ∷ "battery_voltage"
    ∷ "scc_battery_voltage" ∷ "_battery_voltage_scc2" ∷ "battery_discharge_current"
    ∷ "battery_charging_current" ∷ "battery_capacity" ∷ "inverter_heat_sink_temperature"
    ∷ "_mppt1_temp" ∷ "_mppt2_temp" ∷ "pv_charging_power" ∷ "_pv2_input_power" ∷ "pv_input_voltage"
    ∷ "_pv2_input_voltage" ∷ "_settings_changed" ∷ "_mppt1_status" ∷ "_mppt2_status"
    ∷ "_load_connected" ∷ "_battery_power_dir" ∷ "_dcac_power_dir" ∷ "_line_power_dir"
    ∷ "_local_parallel_id" ∷ []

abbrev pub piri_fields : List String
piri_fields =
    "rated_grid_voltage" ∷ "rated_input_current" ∷ "rated_ac_output_voltage"
    ∷ "rated_output_frequency" ∷ "rated_output_current" ∷ "rated_output_apparent_power"
    ∷ "rated_output_active_power" ∷ "rated_battery_voltage" ∷ "battery_recharge_voltage"
    ∷ "battery_redischarge_voltage" ∷ "battery_under_voltage" ∷ "battery_bulk_voltage"
    ∷ "battery_float_voltage" ∷ "battery_type_code" ∷ "max_ac_charging_current"
    ∷ "max_charging_current" ∷ "input_voltage_range_code" ∷ "output_priority_code"
    ∷ "charger_priority_code" ∷ "parallel_max" ∷ "machine_type" ∷ "topology"
    ∷ "output_model_setting" ∷ "solar_power_priority_code" ∷ "mppt_string" ∷ []

abbrev pub fws_warning_fields : List String
fws_warning_fields =
    "warn_line_fail" ∷ "warn_output_short" ∷ "warn_inverter_over_temperature" ∷ "warn_fan_lock"
    ∷ "warn_battery_voltage_high" ∷ "warn_battery_low" ∷ "warn_battery_under" ∷ "warn_overload"
    ∷ "warn_eeprom_fail" ∷ "warn_power_limit" ∷ "warn_pv1_voltage_high" ∷ "warn_pv2_voltage_high"
    ∷ "warn_mppt1_overload" ∷ "warn_mppt2_overload" ∷ "warn_battery_too_low_scc1"
    ∷ "warn_battery_too_low_scc2" ∷ []

abbrev pub flag_fields : List String
flag_fields =
    "flag_silence_buzzer" ∷ "flag_overload_bypass" ∷ "flag_lcd_escape_default"
    ∷ "flag_overload_restart" ∷ "flag_over_temperature_restart" ∷ "flag_backlight_on"
    ∷ "flag_alarm_primary_source_interrupt" ∷ "flag_fault_code_record" ∷ "flag_reserved" ∷ []

abbrev pub output_priority : Dict ℤ Text
output_priority = coded 0 "SolarFirst" ∷ coded 1 "SBU" ∷ []

abbrev pub charger_priority : Dict ℤ Text
charger_priority = coded 0 "SolarFirst" ∷ coded 1 "SolarAndUtility" ∷ coded 2 "OnlySolar" ∷ []

abbrev pub mode_to_operating_mode : Dict ℤ OperatingMode
mode_to_operating_mode =
    (pos 0, power_on)
    ∷ (pos 1, standby)
    ∷ (pos 2, line)
    ∷ (pos 3, battery)
    ∷ (pos 4, fault)
    ∷ (pos 5, line)
    ∷ []

abbrev pub fault_codes : Dict ℤ Text
fault_codes =
    coded 0 "No fault"
    ∷ coded 1 "Fan is locked"
    ∷ coded 2 "Over temperature"
    ∷ coded 3 "Battery voltage is too high"
    ∷ coded 4 "Battery voltage is too low"
    ∷ coded 5 "Output short circuited or over temperature"
    ∷ coded 6 "Output voltage is too high"
    ∷ coded 7 "Over load time out"
    ∷ coded 8 "Bus voltage is too high"
    ∷ coded 9 "Bus soft start failed"
    ∷ coded 11 "Main relay failed"
    ∷ coded 51 "Over current inverter"
    ∷ coded 52 "Bus soft start failed"
    ∷ coded 53 "Inverter soft start failed"
    ∷ coded 54 "Self-test failed"
    ∷ coded 55 "Over DC voltage on output of inverter"
    ∷ coded 56 "Battery connection is open"
    ∷ coded 57 "Current sensor failed"
    ∷ coded 58 "Output voltage is too low"
    ∷ coded 60 "Inverter negative power"
    ∷ coded 71 "Parallel version different"
    ∷ coded 72 "Output circuit failed"
    ∷ coded 80 "CAN communication failed"
    ∷ coded 81 "Parallel host line lost"
    ∷ coded 82 "Parallel synchronized signal lost"
    ∷ coded 83 "Parallel battery voltage detect different"
    ∷ coded 84 "Parallel line voltage or frequency detect different"
    ∷ coded 85 "Parallel line input current unbalanced"
    ∷ coded 86 "Parallel output setting different"
    ∷ []

-- What becomes of a field of DI: a tenth of its number, its number, or whether it is not 0.
pub data Scale : Type 0 where
  tenth whole bool : Scale

abbrev pub di_fields : List (String × Scale)
di_fields =
    ("default_ac_output_voltage", tenth)
    ∷ ("default_ac_output_frequency", tenth)
    ∷ ("default_ac_input_voltage_range", whole)
    ∷ ("default_battery_under_voltage", tenth)
    ∷ ("default_charging_float_voltage", tenth)
    ∷ ("default_charging_bulk_voltage", tenth)
    ∷ ("default_battery_recharge_voltage", tenth)
    ∷ ("default_battery_redischarge_voltage", tenth)
    ∷ ("default_max_charging_current", whole)
    ∷ ("default_max_ac_charging_current", whole)
    ∷ ("default_battery_type", whole)
    ∷ ("default_output_source_priority", whole)
    ∷ ("default_charger_source_priority", whole)
    ∷ ("default_solar_power_priority", whole)
    ∷ ("default_machine_type", whole)
    ∷ ("default_output_model_setting", whole)
    ∷ ("default_flag_silence_buzzer", bool)
    ∷ ("default_flag_overload_restart", bool)
    ∷ ("default_flag_over_temperature_restart", bool)
    ∷ ("default_flag_lcd_backlight_on", bool)
    ∷ ("default_flag_alarm_primary_source_interrupt", bool)
    ∷ ("default_flag_fault_code_record", bool)
    ∷ ("default_flag_overload_bypass", bool)
    ∷ ("default_flag_lcd_escape_default", bool)
    ∷ []

-- `PI18MPPTStatus`, from the code on the wire to `.name`
abbrev pub mppt_status : Dict Text Text
mppt_status = member "0" "Abnormal" ∷ member "1" "NotCharging" ∷ member "2" "Charging" ∷ []

-- `PI18BatteryPowerDirection`, from the code on the wire to `.name`
abbrev pub battery_power_direction : Dict Text Text
battery_power_direction = member "0" "Idle" ∷ member "1" "Charging" ∷ member "2" "Discharging" ∷ []

-- `PI18DCACPowerDirection`, from the code on the wire to `.name`
abbrev pub dcac_power_direction : Dict Text Text
dcac_power_direction = member "0" "Idle" ∷ member "1" "ACtoDC" ∷ member "2" "DCtoAC" ∷ []

-- `PI18LinePowerDirection`, from the code on the wire to `.name`
abbrev pub line_power_direction : Dict Text Text
line_power_direction = member "0" "Idle" ∷ member "1" "Input" ∷ member "2" "Output" ∷ []
