-- ===== src/Energy/Meter.antt =====
-- `DirectEnergySensorBase` and its subclasses. `float(x)` is a parameter, `none` where it raises;
-- `now` is what `time.monotonic()` gives.
use home_assistant_dess_moni.Base.{
  Bool, not, ◌&&◌, ◌||◌, String, List, [], ◌∷◌, Option, none, some, if◌then◌else◌, string_eq,
}
use home_assistant_dess_moni.Base.Float.{Float, lt, zero_f}
use home_assistant_dess_moni.Base.Dict.{lookup}
use home_assistant_dess_moni.Values.{Value, Section}
use home_assistant_dess_moni.Sanity.{
  is_plausible_battery_current, is_plausible_battery_voltage, is_plausible_power, max_step_wh,
}

-- The sensors: those of one field of a section, of the second PV input, and of the battery.
pub data Source : Type 0 where
  of_field : String → Source
  pv2 battery_in battery_out : Source

module _ (F : Float) (float : Value → Option F.Real) where
  open F use {Real, le, add, sub, mul, div, lit}

  pub record EnergySensor : Type 0 where
    pub native_value : Option Real
    pub prev_power : Option Real
    pub prev_ts : Real

  abbrev pub or_zero : Option Real → Real
  or_zero none = zero_f F
  or_zero (some v) = v

  -- The state behind `async_added_to_hass`.
  unfoldable pub restored : Option Real → EnergySensor → EnergySensor
  restored value s = record s { native_value = some (or_zero value) }

  abbrev pub step_wh : Real → Real → Real → Real
  step_wh elapsed prev current = div (mul (div elapsed (lit 3600 0)) (add prev current)) (lit 2 0)

  unfoldable pub reset : Real → EnergySensor → EnergySensor
  reset now s = record s { prev_power = none; prev_ts = now }

  abbrev pub integrated : EnergySensor → Real → Real → Option Real → EnergySensor
  integrated s now current none = record s {
    native_value = some (or_zero s.native_value);
    prev_power = some current;
    prev_ts = now;
  }
  integrated s now current (some prev) =
      let elapsed = sub now s.prev_ts in
      let step = step_wh elapsed prev current in
      let value = or_zero s.native_value in
      if le (zero_f F) step && le step (max_step_wh F float elapsed)
      then record s {
        native_value = some (add value step);
        prev_power = some current;
        prev_ts = now;
      }
      else reset now (record s { native_value = some value })

  unfoldable pub update_energy_value : EnergySensor → Real → Real → EnergySensor
  unfolding reset
  update_energy_value s now current = integrated s now current s.prev_power

  -- What a reading comes to: nothing new, a sample that cuts the trapezoid, or a power.
  pub data Sample : Type 0 where
    absent broken : Sample
    power : Real → Sample

  -- `float(section.get(key))`
  abbrev pub float_of : Section → String → Option Real
  float_of section key = elim (lookup key section) [ none ↦ none | some raw ↦ float raw ]

  abbrev pub checked : Real → Sample
  checked p = if is_plausible_power F float p then power p else broken

  abbrev pub field_sample : Option Real → Sample
  field_sample none = absent
  field_sample (some p) = checked p

  abbrev pub product_sample : Option Real → Option Real → Sample
  product_sample (some current) (some voltage) = checked (mul current voltage)
  product_sample _ _ = broken

  -- `math.isnan(a)`
  abbrev pub is_nan : Real → Bool
  is_nan a = not (le a a)

  abbrev pub is_zero : Real → Bool
  is_zero a = le a (zero_f F) && le (zero_f F) a

  unfoldable pub is_usable : Real → Real → Bool
  is_usable current voltage =
      not (is_nan current || is_nan voltage)
      && not (is_zero current && is_zero voltage)
      && is_plausible_battery_current F float current
      && is_plausible_battery_voltage F float voltage

  abbrev pub battery_sample : (Real → Real → Real) → Option Real → Option Real → Sample
  battery_sample power_of (some current) (some voltage) =
      if is_usable current voltage then power (power_of current voltage) else broken
  battery_sample power_of _ _ = broken

  unfoldable pub power_in : Real → Real → Real
  power_in current voltage = if lt F (zero_f F) current then mul current voltage else zero_f F

  unfoldable pub power_out : Real → Real → Real
  power_out current voltage = let p = mul current voltage in if le p (zero_f F) then zero_f F else p

  unfoldable pub sample : Source → Section → Sample
  sample (of_field key) section = field_sample (float_of section key)
  sample pv2 section =
      product_sample (float_of section "pv_current") (float_of section "pv_voltage")
  sample battery_in section =
      battery_sample power_in (float_of section "battery_charging_current")
        (float_of section "battery_voltage")
  sample battery_out section =
      battery_sample power_out (float_of section "battery_discharge_current")
        (float_of section "battery_voltage")

  abbrev pub taken : EnergySensor → Real → Sample → EnergySensor
  taken s now absent = s
  taken s now broken = reset now s
  taken s now (power p) = update_energy_value s now p

  -- `_handle_coordinator_update`, with the section that the sensor reads, empty where it is missing.
  unfoldable pub handle_update : Source → EnergySensor → Real → Section → EnergySensor
  handle_update source s now section = taken s now (sample source section)

  -- A run of updates, each with its time.
  unfoldable pub handle_all : Source → EnergySensor → List (Real × Section) → EnergySensor
  handle_all source s [] = s
  handle_all source s ((now, section) ∷ updates) =
      handle_all source (handle_update source s now section) updates
