-- ===== src/Agent/Tests.antt =====
-- Runs on a snapshot of the agent, with floats that count whole units.
use home_assistant_dess_moni.Base.{
  ◌≡◌, refl, false, [], ◌∷◌, Option, none, some, string_eq, nat_eq, list_eq,
}
use home_assistant_dess_moni.Base.Text.{codes}
use home_assistant_dess_moni.Base.Int.{ℤ}
use home_assistant_dess_moni.Base.Decimal.{decimal}
use home_assistant_dess_moni.Base.Units.{units}
use home_assistant_dess_moni.Values.{Value, Section, text, whole_number}
use home_assistant_dess_moni.Agent.Split.{
  mode_of, safe_float, synth_b7_b0, split_raw_by_command, qpiri_part, only, unprefixed,
}
use home_assistant_dess_moni.Agent.Status.{sensor_of}
use home_assistant_dess_moni.Sensors.Binary.{status_bit}
use home_assistant_dess_moni.Decode.Bits.{
  parse_device_status_bits_b7_b0, extract_bits, is_bit, binary_from,
}

abbrev no_int : Value → Option ℤ
no_int v = none

abbrev snapshot : Section
snapshot =
    ("operating_mode", text (codes "OffGrid"))
    ∷ ("grid_voltage", text (codes "0"))
    ∷ ("load_percent", text (codes "40"))
    ∷ ("battery_type", text (codes "AGM"))
    ∷ []

-- A flat snapshot has a part for QPIRI, and none for QMOD.
split_run :
    (split_raw_by_command units whole_number no_int decimal snapshot (codes "QPIRI")
      ≡ (("battery_type", text (codes "AGM")) ∷ []))
    × (split_raw_by_command units whole_number no_int decimal snapshot (codes "QMOD") ≡ [])
unfolding split_raw_by_command qpiri_part only unprefixed
split_run = (refl, refl)

-- An inverter on standby is reported as off.
standby_is_off :
    sensor_of "inverter_on" (
      synth_b7_b0 units whole_number no_int decimal
        (("operating_mode", text (codes "Standby")) ∷ []))
    ≡ some false
unfolding synth_b7_b0 mode_of safe_float status_bit parse_device_status_bits_b7_b0 extract_bits
    is_bit binary_from
standby_is_off = refl
