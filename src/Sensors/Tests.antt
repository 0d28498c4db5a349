-- ===== src/Sensors/Tests.antt =====
-- Runs of the sensors.
use home_assistant_dess_moni.Base.{
  ◌≡◌, refl, true, not, ◌||◌, List, [], ◌∷◌, Option, none, some, get_or, ◌==◌, list_eq, nat_eq,
}
use home_assistant_dess_moni.Base.Int.{ℤ, pos}
use home_assistant_dess_moni.Base.Decimal.{decimal}
use home_assistant_dess_moni.Values.{Value, text, flag}
use home_assistant_dess_moni.Decode.Voltronic.{decode_qpiws}
use home_assistant_dess_moni.Sensors.Summary.{
  fault_summary, first_active, flag_set, active_keys, catalogued, uncatalogued,
}
use home_assistant_dess_moni.Sensors.Readings.{device_status}
use home_assistant_dess_moni.Sensors.Agreement.{summary-any_warning}
use home_assistant_dess_moni.Base.Text.{Text, codes}
use home_assistant_dess_moni.Pi18.Warnings.{decode_fws, is_set}
use home_assistant_dess_moni.Sensors.Binary.{any_warning, warning_state, merged}
use home_assistant_dess_moni.Sensors.Warnings.{any_set, any_warning-fws}
use home_assistant_dess_moni.Sensors.Flags.{warnings-fws}

-- No fault, and the eighth warning.
abbrev overloaded : List Text
overloaded =
    codes "0"
    ∷ codes "0"
    ∷ codes "0"
    ∷ codes "0"
    ∷ codes "0"
    ∷ codes "0"
    ∷ codes "0"
    ∷ codes "1"
    ∷ []

any_warning-fws_example :
    any_warning [] (decode_fws (codes "00" ∷ overloaded))
    ≡ (is_set (codes "00") || any_set overloaded)
any_warning-fws_example = any_warning-fws (codes "00") overloaded

warnings-fws_example :
    let qfws = decode_fws (codes "00" ∷ overloaded) in
    (warning_state "overload" [] qfws ≡ some (is_set (get_or overloaded 7 [])))
    × (warning_state "inverter_fault" [] qfws ≡ none)
    × (warning_state "over_temperature" [] qfws ≡ none)
    × (warning_state "fan_locked" [] qfws ≡ none)
    × (warning_state "battery_under_shutdown" [] qfws ≡ none)
    × (warning_state "eeprom_fault" [] qfws ≡ none)
warnings-fws_example = warnings-fws (codes "00") overloaded

abbrev show : Value → Text
show v = []

-- The second of the fields of QPIWS.
abbrev fault_bits : Text
fault_bits = codes "01000000000000000000000000000000"

summary-any_warning_example :
    let qpiws = decode_qpiws fault_bits in
    (fault_summary show qpiws [] == codes "OK") ≡ not (any_warning qpiws [])
summary-any_warning_example = summary-any_warning show fault_bits

-- The flag of PI18 for a locked fan has no entry in the table of the summary.
fan_lock_unnamed :
    fault_summary show [] (("warn_fan_lock", flag true) ∷ []) ≡ codes "Warning: 1 active"
unfolding fault_summary merged first_active flag_set active_keys catalogued uncatalogued decimal
fan_lock_unnamed = refl

abbrev binary_int : Value → Option ℤ
binary_int v = some (pos 10000000)

-- The bit of a fault.
status_is_ok :
    device_status binary_int (("device_status_bits_b7_b0", text (codes "10000000")) ∷ [])
    ≡ some (codes "OK")
unfolding device_status
status_is_ok = refl
