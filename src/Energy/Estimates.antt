-- ===== src/Energy/Estimates.antt =====
-- The estimates of time: `DirectBatteryTimeToFloorSensor`, `DirectBatteryTimeToFullSensor` and
-- `DirectBatteryBackupTimeSensor`. `round3` is `round(x, 3)`. The state of an entity of Home Assistant is
-- its text, `none` where there is no such entity.
use home_assistant_dess_moni.Base.{
  Bool, true, false, ◌||◌, String, [], Option, none, some, if◌then◌else◌, ◌==◌, eqb, string_eq,
}
use home_assistant_dess_moni.Base.Text.{codes}
use home_assistant_dess_moni.Base.Float.{Float, lt, zero_f, max_f}
use home_assistant_dess_moni.Base.Int.{pos}
use home_assistant_dess_moni.Base.Dict.{lookup}
use home_assistant_dess_moni.Values.{Value, text, int, flag, decimal, ints, texts, Section}

-- `not value`
abbrev pub is_falsy : Value → Bool
is_falsy (text []) = true
is_falsy (int (pos n)) = eqb n 0
is_falsy (flag false) = true
is_falsy (decimal (pos n) k) = eqb n 0
is_falsy (ints []) = true
is_falsy (texts []) = true
is_falsy _ = false

-- `state is None or state.state in ("unknown", "unavailable", None)`
abbrev pub no_state : Option String → Bool
no_state none = true
no_state (some s) = s == "unknown" || s == "unavailable"

module _ (F : Float) (float : Value → Option F.Real) (round3 : F.Real → F.Real) where
  open F use {Real, le, sub, mul, div, lit}

  -- `float(section.get(key, 0) or 0)`
  unfoldable pub float_or_zero : Section → String → Option Real
  float_or_zero section key = elim (lookup key section) [
    | none ↦ some (zero_f F)
    | some raw ↦ if is_falsy raw then some (zero_f F) else float raw
  ]

  abbrev pub value_or : Option Real → Real → Real
  value_or none default = default
  value_or (some v) default = v

  unfoldable pub read_current_a : Section → String → Real
  unfolding float_or_zero
  read_current_a section key = value_or (float_or_zero section key) (zero_f F)

  unfoldable pub read_target_floor : Option String → Real
  read_target_floor none = lit 15 0
  read_target_floor (some s) =
      if no_state (some s) then lit 15 0 else value_or (float (text (codes s))) (lit 15 0)

  -- The hours for a charge of `percent` of the capacity at a current, where `current` is not idle and
  -- the target is not met.
  unfoldable pub hours : Real → Real → Real → Real
  hours percent capacity current = round3 (div (mul (div percent (lit 100 0)) capacity) current)

  -- The order of the tests that the three sensors share.
  abbrev pub estimate :
      Option Real → Option Real → Real → (Real → Bool) → (Real → Real) → Option Real
  estimate (some soc) (some capacity) current met missing =
      if le capacity (zero_f F)
      then none
      else if lt F current (lit 1 1)
      then none
      else if met soc
      then some (zero_f F)
      else some (hours (missing soc) capacity current)
  estimate _ _ current met missing = none

  unfoldable pub time_to_floor : Option Real → Option Real → Section → Option String → Option Real
  unfolding read_current_a read_target_floor
  time_to_floor soc capacity qpigs floor_state =
      let target = read_target_floor floor_state in
      estimate soc capacity (read_current_a qpigs "battery_discharge_current") (λ s. le s target)
        (λ s. sub s target)

  unfoldable pub time_to_full : Option Real → Option Real → Section → Option Real
  unfolding read_current_a
  time_to_full soc capacity qpigs =
      estimate soc capacity (read_current_a qpigs "battery_charging_current")
        (λ s. le (lit 100 0) s) (λ s. sub (lit 100 0) s)

  unfoldable pub equivalent_discharge_a : Real → Real → Real → Real
  equivalent_discharge_a load_w pv_w v_bat =
      let net_load_w = max_f F (zero_f F) (sub load_w pv_w) in
      if lt F (zero_f F) v_bat then div net_load_w v_bat else zero_f F

  abbrev pub backup_of :
      Option Real → Option Real → Real → Option Real → Option Real → Option Real → Option Real
  backup_of soc capacity target (some load_w) (some pv_w) (some v_bat) =
      estimate soc capacity (equivalent_discharge_a load_w pv_w v_bat) (λ s. le s target)
        (λ s. sub s target)
  backup_of soc capacity target _ _ _ = none

  unfoldable pub backup_time : Option Real → Option Real → Section → Option String → Option Real
  unfolding float_or_zero read_target_floor
  backup_time soc capacity qpigs floor_state =
      backup_of soc capacity (read_target_floor floor_state)
        (float_or_zero qpigs "output_active_power") (float_or_zero qpigs "pv_charging_power")
        (float_or_zero qpigs "battery_voltage")
