-- ===== src/Soc/Tests.antt =====
-- Runs of the estimator, with a float that counts whole units.
use home_assistant_dess_moni.Base.{ℕ, ◌≡◌, refl, none, some, [], ◌∷◌}
use home_assistant_dess_moni.Base.Units.{units, units-IsOrdered, units-IsMonotone}
use home_assistant_dess_moni.Values.{whole_number}
use home_assistant_dess_moni.Soc.Estimator.{
  SocEstimator, Tick, new_estimator, set_capacity, update, integrate, snap, next_ticks,
  in_float_deadband, effective_current_a,
}
use home_assistant_dess_moni.Base.Text.{codes}
use home_assistant_dess_moni.Values.{Section, text}
use home_assistant_dess_moni.Soc.Sensor.{
  SocSensor, restored, new_sensor, change_capacity, handle_update,
}
use home_assistant_dess_moni.Soc.Shown.{
  IsSound, none_yet, then_event, capacity_changed, updated, Events-IsSound,
}
use home_assistant_dess_moni.Soc.Sync.{Stamped, update-Stamped}

-- A tick at the full voltage with no current.
abbrev full_tick : Tick units ℕ
full_tick = record {
  signed_current_a = 0;
  voltage = 57;
  now = 10;
  sync_voltage = some 56;
  floating_voltage = none;
  bms_soc = none;
  wall_now = some 700;
}

abbrev ready : SocEstimator units ℕ
ready = set_capacity units ℕ (new_estimator units ℕ) (some 200)

abbrev ticked : SocEstimator units ℕ
ticked = update units ℕ full_tick ready

-- The reading of an inverter at 52 V that charges with 3 A, and of its setpoints.
abbrev qpigs : Section
qpigs =
    ("battery_voltage", text (codes "52"))
    ∷ ("battery_charging_current", text (codes "3"))
    ∷ ("battery_discharge_current", text (codes "0"))
    ∷ []

abbrev qpiri : Section
qpiri = ("bulk_charging_voltage", text (codes "56")) ∷ []

abbrev sensor : SocSensor units ℕ whole_number
sensor = restored units ℕ whole_number (new_sensor units ℕ whole_number) (some 80) 5 none

abbrev sized : SocSensor units ℕ whole_number
sized = change_capacity units ℕ whole_number sensor (some "200")

abbrev read_once : SocSensor units ℕ whole_number
read_once = handle_update units ℕ whole_number sized qpigs qpiri 10 700

Events-IsSound_example : IsSound units ℕ whole_number read_once
Events-IsSound_example =
    Events-IsSound units-IsOrdered units-IsMonotone (some 80) 5 none (refl, refl)
      (then_event (then_event none_yet (capacity_changed (some "200")))
        (updated qpigs qpiri 10 700))

update-Stamped_example : Stamped full_tick ticked (update units ℕ full_tick ticked)
update-Stamped_example = update-Stamped full_tick ticked

-- Four ticks at the full voltage stamp the third of them. A tick behind them that is below it stamps
-- the time again.
abbrev later : ℕ → ℕ → Tick units ℕ
later voltage time = record full_tick { voltage = voltage; wall_now = some time }

abbrev after_four : SocEstimator units ℕ
after_four = update units ℕ (later 57 704) (
    update units ℕ (later 57 703)
      (update units ℕ (later 57 702) (update units ℕ (later 57 701) ready)))

stamped_again :
    (after_four.last_sync_at ≡ some 703)
    × ((update units ℕ (later 50 705) after_four).last_sync_at ≡ some 705)
unfolding update snap next_ticks integrate in_float_deadband effective_current_a set_capacity
    new_estimator
stamped_again = (refl, refl)
