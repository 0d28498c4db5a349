-- ===== src/Decode/Fields.antt =====
-- api/decoders/voltronic.py: the field tables of the commands.
use home_assistant_dess_moni.Base.{String, List, [], ◌∷◌}

abbrev pub qpigs_fields : List String
qpigs_fields =
    "grid_voltage" ∷ "grid_frequency" ∷ "ac_output_voltage" ∷ "ac_output_frequency"
    ∷ "output_apparent_power" ∷ "output_active_power" ∷ "load_percent" ∷ "bus_voltage"
    ∷ "battery_voltage" ∷ "battery_charging_current" ∷ "battery_capacity"
    ∷ "inverter_heat_sink_temperature" ∷ "pv_input_current" ∷ "pv_input_voltage"
    ∷ "scc_battery_voltage" ∷ "battery_discharge_current" ∷ "device_status_bits_b7_b0"
    ∷ "battery_voltage_offset" ∷ "eeprom_version" ∷ "pv_charging_power"
    ∷ "device_status_bits_b10_b8" ∷ "reserved_a" ∷ "reserved_bb" ∷ "reserved_cccc" ∷ []

abbrev pub qpigs2_fields : List String
qpigs2_fields = "pv_current" ∷ "pv_voltage" ∷ "pv_daily_energy" ∷ []

abbrev pub qpiws_fields : List String
qpiws_fields =
    "_reserved_0" ∷ "inverter_fault" ∷ "bus_over" ∷ "bus_under" ∷ "bus_soft_fail" ∷ "line_fail"
    ∷ "opv_short" ∷ "inverter_voltage_too_low" ∷ "inverter_voltage_too_high" ∷ "over_temperature"
    ∷ "fan_locked" ∷ "battery_voltage_high" ∷ "battery_low_alarm" ∷ "_reserved_13"
    ∷ "battery_under_shutdown" ∷ "_reserved_15" ∷ "overload" ∷ "eeprom_fault"
    ∷ "inverter_over_current" ∷ "inverter_soft_fail" ∷ "self_test_fail" ∷ "op_dc_voltage_over"
    ∷ "battery_open" ∷ "current_sensor_fail" ∷ "battery_short" ∷ "power_limit" ∷ "pv_voltage_high"
    ∷ "mppt_overload_fault" ∷ "mppt_overload_warning" ∷ "battery_too_low_to_charge" ∷ "_reserved_30"
    ∷ "_reserved_31" ∷ []

abbrev pub qpiri_fields : List String
qpiri_fields =
    "rated_grid_voltage" ∷ "rated_input_current" ∷ "rated_ac_output_voltage"
    ∷ "rated_output_frequency" ∷ "rated_output_current" ∷ "rated_output_apparent_power"
    ∷ "rated_output_active_power" ∷ "rated_battery_voltage" ∷ "low_battery_to_ac_bypass_voltage"
    ∷ "shut_down_battery_voltage" ∷ "bulk_charging_voltage" ∷ "float_charging_voltage"
    ∷ "battery_type" ∷ "max_utility_charging_current" ∷ "max_charging_current"
    ∷ "ac_input_voltage_range" ∷ "output_source_priority" ∷ "charger_source_priority"
    ∷ "parallel_max_number" ∷ "reserved_uu" ∷ "reserved_v" ∷ "parallel_mode"
    ∷ "high_battery_voltage_to_battery_mode" ∷ "solar_work_condition_in_parallel"
    ∷ "solar_max_charging_power_auto_adjust" ∷ "rated_battery_capacity" ∷ "reserved_b"
    ∷ "reserved_ccc" ∷ []

abbrev pub qbeqi_fields : List String
qbeqi_fields =
    "equalization_function" ∷ "equalization_time" ∷ "interval_days" ∷ "max_charging_current"
    ∷ "float_voltage" ∷ "reserved_1" ∷ "equalization_timeout" ∷ "immediate_activation_flag"
    ∷ "elapsed_time" ∷ []
