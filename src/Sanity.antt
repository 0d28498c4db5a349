-- ===== src/Sanity.antt =====
-- sanity.py: plausibility bounds. `float(x)` is a parameter, `none` where it raises.
use home_assistant_dess_moni.Base.{
  Bool, true, false, not, ◌&&◌, String, [], Option, none, some, if◌then◌else◌, string_eq, list_eq,
  nat_eq,
}
use home_assistant_dess_moni.Base.Float.{Float, max_f}
use home_assistant_dess_moni.Base.Dict.{lookup, contains}
use home_assistant_dess_moni.Values.{Value, text, Section}

module _ (F : Float) (float : Value → Option F.Real) where
  open F use {Real, le, neg, lit, mul, div}

  unfoldable pub is_plausible_battery_current : Real → Bool
  is_plausible_battery_current value = le (lit 0 1) value && le value (lit 3000 1)

  unfoldable pub is_plausible_battery_voltage : Real → Bool
  is_plausible_battery_voltage value = le (lit 100 1) value && le value (lit 1200 1)

  unfoldable pub is_plausible_power : Real → Bool
  is_plausible_power value = le (neg (lit 500000 1)) value && le value (lit 500000 1)

  abbrev is_empty_text : Value → Bool
  is_empty_text (text []) = true
  is_empty_text _ = false

  unfoldable pub float_field : Section → String → Option Real
  float_field section key = elim (lookup key section) [
    | none ↦ none
    | some raw ↦ if is_empty_text raw then none else float raw
  ]

  abbrev within : (Real → Bool) → Option Real → Bool
  within test none = true
  within test (some value) = test value

  unfoldable pub is_plausible_qpigs : Section → Bool
  unfolding float_field
  is_plausible_qpigs section =
      not (contains "error" section)
      && within is_plausible_battery_voltage (float_field section "battery_voltage")
      && within is_plausible_battery_current (float_field section "battery_charging_current")
      && within is_plausible_battery_current (float_field section "battery_discharge_current")

  -- `max(MAX_PLAUSIBLE_POWER_W * elapsed_seconds / 3600.0, 100.0)`
  unfoldable pub max_step_wh : Real → Real
  max_step_wh elapsed = max_f F (div (mul (lit 500000 1) elapsed) (lit 36000 1)) (lit 1000 1)
