-- ===== src/Soc/Sensor.antt =====
-- `DirectBatteryStateOfChargeSensor` of sensors/direct_energy_sensors.py, which feeds the estimator.
-- The state of an entity of Home Assistant is its text, `none` where there is no such entity.
use home_assistant_dess_moni.Base.{
  Bool, true, false, not, ◌||◌, String, [], Option, none, some, if◌then◌else◌, ◌==◌, string_eq,
}
use home_assistant_dess_moni.Base.Text.{codes}
use home_assistant_dess_moni.Base.Float.{Float, lt, zero_f, max_f, clamp}
use home_assistant_dess_moni.Base.Dict.{lookup}
use home_assistant_dess_moni.Values.{Value, text, Section}
use home_assistant_dess_moni.Sanity.{is_plausible_battery_current, is_plausible_battery_voltage}
use home_assistant_dess_moni.Energy.Estimates.{no_state}
use home_assistant_dess_moni.Soc.Estimator.{
  BatteryMode, li_bms, SocEstimator, Tick, new_estimator, set_mode, set_deadband, set_capacity,
  restore, update,
}

module _ (F : Float) (Stamp : Type 0) (float : Value → Option F.Real) where
  open F use {Real, le, sub, lit}

  pub record SocSensor : Type 0 where
    pub estimator : SocEstimator F Stamp
    pub native_value : Option Real
    pub full_charge_sync_voltage : Real

  unfoldable pub new_sensor : SocSensor
  new_sensor = record {
    estimator = new_estimator F Stamp;
    native_value = none;
    full_charge_sync_voltage = zero_f F;
  }

  -- The restoring of `async_added_to_hass`: the stored percentage is 100 where there is none.
  unfoldable pub restored : SocSensor → Option Real → Real → Option Stamp → SocSensor
  restored s stored accumulated last_sync =
      let soc : Real = elim stored [ none ↦ lit 100 0 | some v ↦ v ] in
      record s {
        estimator = restore F Stamp s.estimator (some soc) accumulated last_sync;
        native_value = some soc;
      }

  -- `float(state.state)`, `none` where there is no state or it raises.
  abbrev pub number_of : Option String → Option Real
  number_of none = none
  number_of (some s) = if no_state (some s) then none else float (text (codes s))

  abbrev pub shown : Option Real → Option Real → Option Real → Option Real
  shown (some capacity) (some soc) earlier = some soc
  shown _ _ earlier = earlier

  -- `_update_battery_capacity_from_state`; without a number the value that is shown stays.
  unfoldable pub change_capacity : SocSensor → Option String → SocSensor
  change_capacity s state =
      let e = set_capacity F Stamp s.estimator (number_of state) in
      record s { estimator = e; native_value = shown e.capacity_ah e.soc_percent s.native_value }

  abbrev pub at_least_zero : Option Real → Real
  at_least_zero none = zero_f F
  at_least_zero (some v) = max_f F (zero_f F) v

  unfoldable pub change_sync_voltage : SocSensor → Option String → SocSensor
  change_sync_voltage s state = record s {
    full_charge_sync_voltage = at_least_zero (number_of state);
  }

  unfoldable pub change_mode : SocSensor → Option String → SocSensor
  change_mode s none = s
  change_mode s (some mode) = record s { estimator = set_mode F Stamp s.estimator mode }

  abbrev pub is_on : Option String → Bool
  is_on none = true
  is_on (some s) = not (s == "off")

  abbrev pub max_or : Option Real → Real → Real
  max_or none default = default
  max_or (some v) default = max_f F (zero_f F) v

  -- `_refresh_float_deadband_config`; a switch that is neither on nor off counts as on.
  unfoldable pub refresh_deadband :
      SocSensor → Option String → Option String → Option String → SocSensor
  refresh_deadband s switch window floor = record s {
    estimator =
        set_deadband F Stamp s.estimator (is_on switch) (max_or (number_of window) (lit 5 1))
          (max_or (number_of floor) (lit 15 1));
  }

  abbrev pub when_positive : Option Real → Option Real
  when_positive none = none
  when_positive (some v) = if lt F (zero_f F) v then some v else none

  -- `get_bulk_charging_voltage` and `get_floating_charging_voltage`.
  unfoldable pub setpoint : Section → String → Option Real
  setpoint qpiri key = elim (lookup key qpiri) [
    | none ↦ none
    | some raw ↦ when_positive (float raw)
  ]

  unfoldable pub full_charge_sync_voltage_of : SocSensor → Section → Option Real
  full_charge_sync_voltage_of s qpiri =
      if lt F (zero_f F) s.full_charge_sync_voltage
      then some s.full_charge_sync_voltage
      else setpoint qpiri "bulk_charging_voltage"

  abbrev pub is_empty_text : Value → Bool
  is_empty_text (text []) = true
  is_empty_text _ = false

  abbrev pub percentage : Option Real → Option Real
  percentage none = none
  percentage (some v) = if not (le v v) then none else some (clamp F v (zero_f F) (lit 100 0))

  abbrev pub bms_field : Option Value → Option Real
  bms_field none = none
  bms_field (some raw) = if is_empty_text raw then none else percentage (float raw)

  unfoldable pub read_bms_soc : Section → Option Real
  read_bms_soc qpigs = bms_field (lookup "battery_capacity" qpigs)

  abbrev pub bms_of : BatteryMode → Section → Option Real
  bms_of li_bms qpigs = read_bms_soc qpigs
  bms_of _ qpigs = none

  unfoldable pub tick_of : SocSensor → Section → Section → Real → Stamp → Real → Real → Tick F Stamp
  tick_of s qpigs qpiri now wall signed voltage = record {
    signed_current_a = signed;
    voltage = voltage;
    now = now;
    sync_voltage = full_charge_sync_voltage_of s qpiri;
    floating_voltage = setpoint qpiri "float_charging_voltage";
    bms_soc = bms_of s.estimator.mode qpigs;
    wall_now = some wall;
  }

  -- `update_soc`
  abbrev pub update_soc : SocSensor → Tick F Stamp → SocSensor
  update_soc s i =
      let e = update F Stamp i s.estimator in
      record s { estimator = e; native_value = e.soc_percent }

  -- `float(section.get(key, 0))`
  abbrev pub float_default : Section → String → Option Real
  float_default section key = elim (lookup key section) [
    | none ↦ some (zero_f F)
    | some raw ↦ float raw
  ]

  abbrev pub handle_readings :
      SocSensor
      → Section
      → Section
      → Real
      → Stamp
      → Option Real
      → Option Real
      → Option Real
      → SocSensor
  handle_readings s qpigs qpiri now wall (some voltage) (some charging) (some discharging) =
      if not (is_plausible_battery_voltage F float voltage)
        || not (is_plausible_battery_current F float charging)
        || not (is_plausible_battery_current F float discharging)
      then s
      else update_soc s (tick_of s qpigs qpiri now wall (sub charging discharging) voltage)
  handle_readings s qpigs qpiri now wall _ _ _ = record s { native_value = none }

  -- `_handle_coordinator_update`
  unfoldable pub handle_update : SocSensor → Section → Section → Real → Stamp → SocSensor
  handle_update s qpigs qpiri now wall =
      handle_readings s qpigs qpiri now wall (float_default qpigs "battery_voltage")
        (float_default qpigs "battery_charging_current")
        (float_default qpigs "battery_discharge_current")
