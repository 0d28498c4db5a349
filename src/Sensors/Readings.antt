-- ===== src/Sensors/Readings.antt =====
-- The sensors of sensors/direct_sensor.py that have one field or compute one value, `none` for unknown.
-- A section that is missing is empty. `float(x)` and `int(x)` are parameters, `none` where they raise.
use home_assistant_dess_moni.Base.{
  not, ◌&&◌, ◌||◌, String, List, [], ◌∷◌, Option, none, some, if◌then◌else◌, string_eq, list_eq,
  nat_eq,
}
use home_assistant_dess_moni.Base.Text.{Text, codes}
use home_assistant_dess_moni.Base.Int.{ℤ}
use home_assistant_dess_moni.Base.Float.{Float, zero_f}
use home_assistant_dess_moni.Base.Dict.{lookup}
use home_assistant_dess_moni.Values.{
  OperatingMode, power_on, standby, line, battery, shutdown_approaching, fault, Value, text, mode,
  Section,
}
use home_assistant_dess_moni.Sanity.{
  is_plausible_battery_current, is_plausible_battery_voltage, is_plausible_power,
}
use home_assistant_dess_moni.Energy.Meter.{float_of, is_zero}
use home_assistant_dess_moni.Pi18.Enums.{is_one_of}

-- `raw_value in self.options`
abbrev pub option_of : List Text → Option Text → Option Text
option_of options none = none
option_of options (some t) = if is_one_of t options then some t else none

abbrev pub text_value : Option Value → Option Text
text_value (some (text t)) = some t
text_value _ = none

-- `DirectEnumSensorBase`
unfoldable pub enum_value : List Text → Section → String → Option Text
enum_value options section key = option_of options (text_value (lookup key section))

abbrev pub mode_name : OperatingMode → Text
mode_name power_on = codes "PowerOn"
mode_name standby = codes "Standby"
mode_name line = codes "Line"
mode_name battery = codes "Battery"
mode_name shutdown_approaching = codes "ShutdownApproaching"
mode_name fault = codes "Fault"

abbrev pub mode_options : List Text
mode_options =
    codes "PowerOn"
    ∷ codes "Standby"
    ∷ codes "Line"
    ∷ codes "Battery"
    ∷ codes "ShutdownApproaching"
    ∷ codes "Fault"
    ∷ []

abbrev pub name_of : Option Value → Option Text
name_of (some (mode m)) = some (mode_name m)
name_of (some (text t)) = some t
name_of _ = none

unfoldable pub displayed_mode : Section → Option Text
displayed_mode qmod = option_of mode_options (name_of (lookup "operating_mode" qmod))

module _ (F : Float) (float : Value → Option F.Real) where
  open F use {Real, sub, mul}

  -- `DirectTypedSensorBase`
  unfoldable pub typed_value : Section → String → Option Real
  typed_value section key = float_of F float section key

  abbrev pub product : Option Real → Option Real → Option Real
  product (some current) (some voltage) = some (mul current voltage)
  product _ _ = none

  unfoldable pub pv2_power : Section → Option Real
  pv2_power qpigs2 =
      product (float_of F float qpigs2 "pv_current") (float_of F float qpigs2 "pv_voltage")

  -- `float(qpigs.get(key, 0))`
  abbrev pub float_or_0 : Section → String → Option Real
  float_or_0 section key = elim (lookup key section) [ none ↦ some (zero_f F) | some v ↦ float v ]

  abbrev pub checked_power : Real → Option Real
  checked_power p = if is_plausible_power F float p then some p else none

  -- The power of the battery from its two currents and its voltage.
  unfoldable pub power_of : Real → Real → Real → Option Real
  power_of charging discharge voltage =
      if is_zero F float charging && is_zero F float discharge && is_zero F float voltage
      then none
      else if not (is_plausible_battery_current F float charging)
          || not (is_plausible_battery_current F float discharge)
          || not (is_plausible_battery_voltage F float voltage)
      then none
      else checked_power (mul (sub charging discharge) voltage)

  abbrev pub power_of_all : Option Real → Option Real → Option Real → Option Real
  power_of_all (some charging) (some discharge) (some voltage) = power_of charging discharge voltage
  power_of_all _ _ _ = none

  unfoldable pub battery_power : Section → Option Real
  unfolding power_of
  battery_power [] = none
  battery_power (entry ∷ qpigs) =
      power_of_all (float_or_0 (entry ∷ qpigs) "battery_charging_current")
        (float_or_0 (entry ∷ qpigs) "battery_discharge_current")
        (float_or_0 (entry ∷ qpigs) "battery_voltage")

-- `DirectDeviceStatusSensor`: the choice by the flags is overwritten by the last assignment. `none` is
-- what `int` raises.
unfoldable pub device_status : (Value → Option ℤ) → Section → Option Text
device_status int_of qpigs = elim (lookup "device_status_bits_b7_b0" qpigs) [
  | none ↦ some (codes "OK")
  | some bits ↦ elim (int_of bits) [ none ↦ none | some flags ↦ some (codes "OK") ]
]
