-- ===== src/Modbus/Settings.antt =====
-- A setting that is written to an SMG-II, as the next snapshot shows it.
use home_assistant_dess_moni.Base.{
  ℕ, ◌≡◌, refl, ap, [], ◌∷◌, Option, none, some, String, min, if◌then◌else◌, string_eq, ◌==◌,
}
use home_assistant_dess_moni.Base.Text.{Text, codes}
use home_assistant_dess_moni.Base.Int.{ℤ, pos, int_eq}
use home_assistant_dess_moni.Base.Dict.{lookup}
use home_assistant_dess_moni.Values.{text}
use home_assistant_dess_moni.Pi18.Numbers.{tenths_text}
use home_assistant_dess_moni.Modbus.Smg2.{Fields, Table, config_table}
use home_assistant_dess_moni.Modbus.Projections.{number, smg2_to_qpiri}
use home_assistant_dess_moni.Modbus.Adapter.{
  RegisterWrite, OutputSetting, utility, solar, sbu, ChargeSetting, utility_charge, solar_charge,
  solar_and_utility, output_priority_write, charge_priority_write, bulk_voltage_write,
  float_voltage_write,
}

-- The settings that a snapshot shows, voltages in tenths of a volt.
pub data Setting : Type 0 where
  output : OutputSetting → Setting
  charge : ChargeSetting → Setting
  bulk float : ℕ → Setting

abbrev pub write_of : Setting → RegisterWrite
write_of (output s) = output_priority_write s
write_of (charge s) = charge_priority_write s
write_of (bulk t) = bulk_voltage_write (pos t)
write_of (float t) = float_voltage_write (pos t)

-- The entry of the snapshot, and the field of QPIRI that is made of it.
abbrev pub entry_of : Setting → String
entry_of (output s) = "output_priority"
entry_of (charge s) = "battery_charging_priority"
entry_of (bulk t) = "max_charge_voltage"
entry_of (float t) = "float_charge_voltage"

abbrev pub qpiri_key : Setting → String
qpiri_key (output s) = "output_source_priority"
qpiri_key (charge s) = "charger_source_priority"
qpiri_key (bulk t) = "bulk_charging_voltage"
qpiri_key (float t) = "float_charging_voltage"

abbrev pub meaning : Setting → Text
meaning (output utility) = codes "UtilityFirst"
meaning (output solar) = codes "SolarFirst"
meaning (output sbu) = codes "SBU"
meaning (charge utility_charge) = codes "UtilityFirst"
meaning (charge solar_charge) = codes "SolarFirst"
meaning (charge solar_and_utility) = codes "SolarAndUtility"
meaning (bulk t) = tenths_text (pos (min 0xffff t))
meaning (float t) = tenths_text (pos (min 0xffff t))

-- The register of an entry.
abbrev pub register_of : String → Table → Option ℕ
register_of name [] = none
register_of name ((entry, addr, kind) ∷ table) =
    if entry == name then some addr else register_of name table

-- A setting is written to the register from which the snapshot takes its entry; and where the snapshot
-- has what was written there, QPIRI shows the setting: the name of a priority, a voltage in tenths up to
-- 6553.5 V.
pub shown-written :
    (s : Setting) (config : Fields)
    → number config (entry_of s) ≡ pos (write_of s).1
    → (register_of (entry_of s) config_table ≡ some (write_of s).0)
      × (lookup (qpiri_key s) (smg2_to_qpiri config) ≡ some (text (meaning s)))
unfolding smg2_to_qpiri output_priority_write charge_priority_write bulk_voltage_write
    float_voltage_write
shown-written (output utility) config h = (refl, rw h refl)
shown-written (output solar) config h = (refl, rw h refl)
shown-written (output sbu) config h = (refl, rw h refl)
shown-written (charge utility_charge) config h = (refl, rw h refl)
shown-written (charge solar_charge) config h = (refl, rw h refl)
shown-written (charge solar_and_utility) config h = (refl, rw h refl)
shown-written (bulk t) config h = (refl, ap (λ (n : ℤ). some (text (tenths_text n))) h)
shown-written (float t) config h = (refl, ap (λ (n : ℤ). some (text (tenths_text n))) h)
