-- ===== src/Energy/Tests.antt =====
-- Runs of the energy sensors, with floats that count whole units.
use home_assistant_dess_moni.Base.{ℕ, ◌≡◌, refl, true, List, [], ◌∷◌, none, some, leb}
use home_assistant_dess_moni.Base.Text.{codes}
use home_assistant_dess_moni.Base.Units.{units, units-IsOrdered, units-IsMonotone}
use home_assistant_dess_moni.Values.{Section, text, whole_number}
use home_assistant_dess_moni.Sanity.{is_plausible_power, max_step_wh}
use home_assistant_dess_moni.Energy.Meter.{
  EnergySensor, of_field, handle_update, handle_all, sample, update_energy_value, reset,
}
use home_assistant_dess_moni.Energy.Growth.{energy, Grown, handle_all-Grown}
use home_assistant_dess_moni.Energy.Estimates.{time_to_full, read_current_a, float_or_zero, hours}

abbrev meter : EnergySensor units whole_number
meter = record { native_value = some 7; prev_power = none; prev_ts = 0 }

abbrev reading : Section
reading = ("pv_charging_power", text (codes "500")) ∷ []

-- Two samples of 500 W, two hours apart.
abbrev updates : List (ℕ × Section)
updates = (100, reading) ∷ (7300, reading) ∷ []

meter_run :
    energy (handle_all units whole_number (of_field "pv_charging_power") meter updates) ≡ 1007
unfolding handle_all handle_update sample update_energy_value reset is_plausible_power max_step_wh
meter_run = refl

handle_all-Grown_example :
    let t = handle_all units whole_number (of_field "pv_charging_power") meter updates in
    (leb (energy meter) (energy t) ≡ true)
    × Grown 7310 t (handle_update units whole_number (of_field "pv_charging_power") t 7310 reading)
handle_all-Grown_example =
    handle_all-Grown units-IsOrdered units-IsMonotone (of_field "pv_charging_power") meter updates
      7310 reading

-- 40 % of 200 Ah at 8 A.
full_run :
    time_to_full units whole_number
      (λ a. a)
      (some 60)
      (some 200)
      (("battery_charging_current", text (codes "8")) ∷ [])
    ≡ some 0
unfolding time_to_full read_current_a float_or_zero hours
full_run = refl
