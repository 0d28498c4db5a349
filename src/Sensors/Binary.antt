-- ===== src/Sensors/Binary.antt =====
-- binary_sensor.py: the states of the binary sensors, `none` for one that is unknown.
use Prim.Native.String.{String}
use home_assistant_dess_moni.Base.{
  Bool, true, false, not, ◌&&◌, ◌||◌, List, [], ◌∷◌, Option, none, some, if◌then◌else◌, string_eq,
}
use home_assistant_dess_moni.Base.Text.{Text}
use home_assistant_dess_moni.Base.Dict.{lookup}
use home_assistant_dess_moni.Values.{Value, text, int, flag, decimal, Section}
use home_assistant_dess_moni.Pi18.Numbers.{is_nonzero}
use home_assistant_dess_moni.Energy.Estimates.{is_falsy}
use home_assistant_dess_moni.Agent.Split.{has_prefix, set_default}

-- The flags of `_B7_B0_FLAGS`, `_B10_B8_FLAGS` and `_QPIWS_WARNINGS`.
abbrev pub b7_b0_flags : List String
b7_b0_flags =
    "fault" ∷ "line_fail" ∷ "bus_over" ∷ "battery_low" ∷ "battery_high" ∷ "inverter_overload"
    ∷ "inverter_on" ∷ []

abbrev pub b10_b8_flags : List String
b10_b8_flags = "charging_to_battery" ∷ "charging_ac_active" ∷ "charging_scc_active" ∷ []

abbrev pub qpiws_warnings : List String
qpiws_warnings =
    "inverter_fault" ∷ "overload" ∷ "over_temperature" ∷ "fan_locked" ∷ "battery_under_shutdown"
    ∷ "eeprom_fault" ∷ []

-- `bool(v) if v is not None else None`
abbrev pub truth : Option Value → Option Bool
truth none = none
truth (some v) = some (not (is_falsy v))

-- `_StatusBitBinarySensor`; a value that is no text makes the parser raise.
unfoldable pub status_bit : (Text → Section) → String → Option Value → Option Bool
status_bit parser key (some (text [])) = none
status_bit parser key (some (text (c ∷ bits))) = truth (lookup key (parser (c ∷ bits)))
status_bit parser key _ = none

-- `merged` of `_WarningFlagBinarySensor._flags`.
unfoldable pub merged : Section → Section → Section
merged qpiws [] = qpiws
merged qpiws ((key, v) ∷ qfws) = merged (set_default key v qpiws) qfws

abbrev pub append_string : String → String → String
append_string String.[] t = t
append_string (String.◌∷◌ c s) t = String.◌∷◌ c (append_string s t)

abbrev pub is_truthy : Option Value → Bool
is_truthy none = false
is_truthy (some v) = not (is_falsy v)

-- `bool(bare) or bool(prefixed)` where either is there.
abbrev pub either_flag : Option Value → Option Value → Option Bool
either_flag none none = none
either_flag bare prefixed = some (is_truthy bare || is_truthy prefixed)

unfoldable pub warning_state : String → Section → Section → Option Bool
unfolding merged
warning_state key qpiws qfws =
    let flags = merged qpiws qfws in
    either_flag (lookup key flags) (lookup (append_string "warn_" key) flags)

-- `isinstance(v, (int, float)) and v != 0`; a `bool` is an `int`.
abbrev pub is_code : Option Value → Bool
is_code (some (int n)) = is_nonzero n
is_code (some (decimal n k)) = is_nonzero n
is_code (some (flag b)) = b
is_code _ = false

-- `any(bool(v) for k, v in section.items() if isinstance(v, bool) and test(k))`
unfoldable pub any_flag : (String → Bool) → Section → Bool
any_flag test [] = false
any_flag test ((key, flag b) ∷ section) = test key && b || any_flag test section
any_flag test ((key, v) ∷ section) = any_flag test section

-- `_AnyWarningBinarySensor`, of a device that has data.
unfoldable pub any_warning : Section → Section → Bool
unfolding any_flag
any_warning qpiws qfws =
    if is_code (lookup "fault_code" qfws)
      || is_code (lookup "warning_code" qfws)
      || is_truthy (lookup "has_fault" qfws)
      || is_truthy (lookup "has_warning" qfws)
    then true
    else any_flag (λ key. not (has_prefix "_reserved_" key)) qpiws
      || any_flag (has_prefix "warn_") qfws
