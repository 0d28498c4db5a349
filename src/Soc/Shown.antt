-- ===== src/Soc/Shown.antt =====
-- The percentage that the sensor shows.
use home_assistant_dess_moni.Base.{
  arith, String, Option, none, some, Bool-cases, inl, inr, string_eq,
}
use home_assistant_dess_moni.Base.Float.{Float, IsOrdered, IsMonotone, zero_f, clamp-Within}
use home_assistant_dess_moni.Base.Dict.{lookup}
use home_assistant_dess_moni.Values.{Value, Section}
use home_assistant_dess_moni.Soc.Estimator.{
  BatteryMode, li_voltage, li_bms, lead_acid, new_estimator, restore,
}
use home_assistant_dess_moni.Soc.Bounds.{
  InRange, PercentOk, mode, deadband, capacity, tick, Step-InRange,
}
use home_assistant_dess_moni.Soc.Sensor.{
  SocSensor, number_of, shown, change_capacity, change_sync_voltage, change_mode, refresh_deadband,
  percentage, bms_field, read_bms_soc, bms_of, tick_of, handle_readings, handle_update, update_soc,
  is_empty_text, restored as restored_sensor, new_sensor,
}

module _ (F : Float) (Stamp : Type 0) (float : Value → Option F.Real) where
  open F use {Real, le}

  -- The estimator is in range, and so is the value that the sensor shows.
  pub record IsSound (s : SocSensor F Stamp float) : Type 0 where
    pub in_range : InRange F Stamp s.estimator
    pub shown : PercentOk F Stamp s.native_value

  -- The callbacks of the sensor.
  pub data Event (s : SocSensor F Stamp float) : SocSensor F Stamp float → Type 0 where
    capacity_changed : (state : Option String) → Event s (change_capacity F Stamp float s state)
    sync_voltage_changed :
        (state : Option String) → Event s (change_sync_voltage F Stamp float s state)
    mode_changed : (state : Option String) → Event s (change_mode F Stamp float s state)
    deadband_changed :
        (switch window floor : Option String)
        → Event s (refresh_deadband F Stamp float s switch window floor)
    updated :
        (qpigs qpiri : Section) (now : Real) (wall : Stamp)
        → Event s (handle_update F Stamp float s qpigs qpiri now wall)

  -- The events of a sensor from one state to another.
  pub data Events (s : SocSensor F Stamp float) : SocSensor F Stamp float → Type 0 where
    none_yet : Events s s
    then_event : {t u : SocSensor F Stamp float} → Events s t → Event t u → Events s u

percentage-Ok :
    (F : Float) (Stamp : Type 0) (float : Value → Option F.Real) (v : Option F.Real)
    → IsOrdered F
    → IsMonotone F
    → PercentOk F Stamp (percentage F Stamp float v)
percentage-Ok F Stamp float none o k = tt
percentage-Ok F Stamp float (some v) o k = elim (Bool-cases (F.le v v)) [
  | inl e ↦ rw e (clamp-Within F o v (zero_f F) (F.lit 100 0) k.hundred_pos)
  | inr e ↦ rw e tt
]

bms_field-Ok :
    (F : Float) (Stamp : Type 0) (float : Value → Option F.Real) (raw : Option Value)
    → IsOrdered F
    → IsMonotone F
    → PercentOk F Stamp (bms_field F Stamp float raw)
bms_field-Ok F Stamp float none o k = tt
bms_field-Ok F Stamp float (some raw) o k = elim (Bool-cases (is_empty_text F Stamp float raw)) [
  | inl empty ↦ rw empty tt
  | inr filled ↦ rw filled (percentage-Ok F Stamp float (float raw) o k)
]

bms_of-Ok :
    (F : Float) (Stamp : Type 0) (float : Value → Option F.Real) (m : BatteryMode) (qpigs : Section)
    → IsOrdered F
    → IsMonotone F
    → PercentOk F Stamp (bms_of F Stamp float m qpigs)
unfolding read_bms_soc
bms_of-Ok F Stamp float li_voltage qpigs o k = tt
bms_of-Ok F Stamp float li_bms qpigs o k =
    bms_field-Ok F Stamp float (lookup "battery_capacity" qpigs) o k
bms_of-Ok F Stamp float lead_acid qpigs o k = tt

shown-Ok :
    (F : Float) (Stamp : Type 0) (float : Value → Option F.Real)
    (capacity soc earlier : Option F.Real)
    → PercentOk F Stamp soc
    → PercentOk F Stamp earlier
    → PercentOk F Stamp (shown F Stamp float capacity soc earlier)
shown-Ok F Stamp float none soc earlier p q = q
shown-Ok F Stamp float (some c) none earlier p q = q
shown-Ok F Stamp float (some c) (some soc) earlier p q = p

module _ {F : Float} {Stamp : Type 0} {float : Value → Option F.Real} (o : IsOrdered F)
    (k : IsMonotone F) where
  open F use {Real, le, lit, sub}

  readings-IsSound :
      (s : SocSensor F Stamp float) (qpigs qpiri : Section) (now : Real) (wall : Stamp)
      (v c d : Option Real)
      → IsSound F Stamp float s
      → IsSound F Stamp float (handle_readings F Stamp float s qpigs qpiri now wall v c d)
  unfolding tick_of
  readings-IsSound s qpigs qpiri now wall (some v) (some c) (some d) h =
      let i = tick_of F Stamp float s qpigs qpiri now wall (sub c d) v in
      let e =
        Step-InRange o k (tick i (bms_of-Ok F Stamp float s.estimator.mode qpigs o k)) h.in_range in
      let after : IsSound F Stamp float (update_soc F Stamp float s i) = record {
        in_range = e;
        shown = e.percent;
      } in
      ground (arith, after, h)
  readings-IsSound s qpigs qpiri now wall none c d h = record { in_range = h.in_range; shown = tt }
  readings-IsSound s qpigs qpiri now wall (some v) none d h = record {
    in_range = h.in_range;
    shown = tt;
  }
  readings-IsSound s qpigs qpiri now wall (some v) (some c) none h = record {
    in_range = h.in_range;
    shown = tt;
  }

  Event-IsSound :
      {s t : SocSensor F Stamp float}
      → Event F Stamp float s t
      → IsSound F Stamp float s
      → IsSound F Stamp float t
  unfolding change_capacity change_sync_voltage change_mode refresh_deadband handle_update
  Event-IsSound {s} (capacity_changed state) h =
      let e = Step-InRange o k (capacity (number_of F Stamp float state)) h.in_range in
      record { in_range = e; shown = shown-Ok F Stamp float _ _ s.native_value e.percent h.shown }
  Event-IsSound (sync_voltage_changed state) h = record { in_range = h.in_range; shown = h.shown }
  Event-IsSound (mode_changed none) h = h
  Event-IsSound (mode_changed (some m)) h = record {
    in_range = Step-InRange o k (mode m) h.in_range;
    shown = h.shown;
  }
  Event-IsSound (deadband_changed switch window floor) h = record {
    in_range = Step-InRange o k (deadband _ _ _) h.in_range;
    shown = h.shown;
  }
  Event-IsSound {s} (updated qpigs qpiri now wall) h =
      readings-IsSound s qpigs qpiri now wall _ _ _ h

  abbrev pub started : Option Real → Real → Option Stamp → SocSensor F Stamp float
  started soc charge last = restored_sensor F Stamp float (new_sensor F Stamp float) soc charge last

  started-IsSound :
      (soc : Option Real) (charge : Real) (last : Option Stamp)
      → PercentOk F Stamp soc
      → IsSound F Stamp float (started soc charge last)
  unfolding restored_sensor new_sensor new_estimator restore
  started-IsSound none charge last p =
      let q : PercentOk F Stamp (some (lit 100 0)) =
        (k.hundred_pos, ground (arith, o.le_total (lit 100 0) (lit 100 0))) in
      record { in_range = record { charge = tt; percent = q }; shown = q }
  started-IsSound (some soc) charge last p = record {
    in_range = record { charge = tt; percent = p };
    shown = p;
  }

  -- A sensor that starts from a stored percentage, if any, and any stored charge keeps these bounds
  -- through all its callbacks, whatever the entities and the inverter report: a capacity is positive,
  -- the charge is from 0 to the capacity, and the percentages that the estimator holds and that the
  -- sensor shows are from 0 to 100. The arithmetic keeps the order as the two hypotheses say.
  pub Events-IsSound :
      (soc : Option Real) (charge : Real) (last : Option Stamp)
      → PercentOk F Stamp soc
      → {t : SocSensor F Stamp float} → Events F Stamp float (started soc charge last) t
      → IsSound F Stamp float t
  Events-IsSound soc charge last p none_yet = started-IsSound soc charge last p
  Events-IsSound soc charge last p (then_event es e) =
      Event-IsSound e (Events-IsSound soc charge last p es)
