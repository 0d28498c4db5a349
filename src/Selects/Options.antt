-- ===== src/Selects/Options.antt =====
-- select.py: the options, how a section is read as one, and what is sent for one; and the default
-- settings of `BaseAdapter`. `whole` is `int(float(x))`, `none` where it raises.
use home_assistant_dess_moni.Base.{
  ℕ, Bool, false, List, [], ◌∷◌, ◌++◌, Option, none, some, if◌then◌else◌, string_eq, list_eq,
  nat_eq,
}
use home_assistant_dess_moni.Base.Text.{Text, codes, contains_text}
use home_assistant_dess_moni.Base.Decimal.{padded, read_digits}
use home_assistant_dess_moni.Base.Int.{ℤ}
use home_assistant_dess_moni.Base.Dict.{Dict, lookup}
use home_assistant_dess_moni.Values.{Value, text, Section}
use home_assistant_dess_moni.Pi18.Numbers.{int_text}
use home_assistant_dess_moni.Pi18.Enums.{is_one_of}
use home_assistant_dess_moni.Modbus.Adapter.{
  OutputSetting, utility, solar, sbu, ChargeSetting, utility_charge, solar_charge,
  solar_and_utility,
}

abbrev pub utility_options : List Text
utility_options =
    codes "2"
    ∷ codes "10"
    ∷ codes "20"
    ∷ codes "30"
    ∷ codes "40"
    ∷ codes "50"
    ∷ codes "60"
    ∷ codes "70"
    ∷ codes "80"
    ∷ codes "90"
    ∷ codes "100"
    ∷ codes "110"
    ∷ codes "120"
    ∷ []

abbrev pub charging_options : List Text
charging_options =
    codes "10"
    ∷ codes "20"
    ∷ codes "30"
    ∷ codes "40"
    ∷ codes "50"
    ∷ codes "60"
    ∷ codes "70"
    ∷ codes "80"
    ∷ []

-- `map_priority` of the two selects of priorities.
abbrev pub map_output : Dict Text OutputSetting
map_output = (codes "UtilityFirst", utility) ∷ (codes "SBU", sbu) ∷ (codes "Solar", solar) ∷ []

abbrev pub map_charge : Dict Text ChargeSetting
map_charge =
    (codes "UtilityFirst", utility_charge)
    ∷ (codes "SolarFirst", solar_charge)
    ∷ (codes "SolarAndUtility", solar_and_utility)
    ∷ []

-- The values of the settings, which `BaseAdapter` sends as they are.
abbrev pub output_command : OutputSetting → Text
output_command utility = codes "POP00"
output_command solar = codes "POP01"
output_command sbu = codes "POP02"

abbrev pub charge_command : ChargeSetting → Text
charge_command utility_charge = codes "PCP00"
charge_command solar_charge = codes "PCP01"
charge_command solar_and_utility = codes "PCP02"

unfoldable pub max_combined_command : ℕ → Text
max_combined_command amps = codes "MNCHGC" ++ padded 3 amps

-- `f"{amps:04.1f}"` of a whole number.
unfoldable pub max_utility_command : ℕ → Bool → Text
max_utility_command amps float_format =
    if float_format
    then codes "MUCHGC" ++ padded 2 amps ++ codes ".0"
    else codes "MUCHGC" ++ padded 3 amps

abbrev pub option_value : Option Value → Option Text
option_value (some (text t)) = some t
option_value _ = none

-- `_read_current` of the select of the output priority; a value is a text or is missing.
abbrev pub output_mapper : Dict Text Text
output_mapper =
    (codes "UtilityFirst", codes "UtilityFirst")
    ∷ (codes "SBU", codes "SBU")
    ∷ (codes "Solar", codes "Solar")
    ∷ (codes "SolarFirst", codes "Solar")
    ∷ []

abbrev pub mapped_option : Option Text → Option Text
mapped_option none = none
mapped_option (some t) = elim (lookup t output_mapper) [ none ↦ some t | some name ↦ some name ]

unfoldable pub read_output : Section → Option Text
read_output qpiri = mapped_option (option_value (lookup "output_source_priority" qpiri))

unfoldable pub read_charge : Section → Option Text
read_charge qpiri = option_value (lookup "charger_source_priority" qpiri)

unfoldable pub normalize_amps : (Value → Option ℤ) → Option Value → Option Text
normalize_amps whole none = none
normalize_amps whole (some raw) = elim (whole raw) [ none ↦ none | some n ↦ some (int_text n) ]

unfoldable pub read_max_charging : (Value → Option ℤ) → Section → Option Text
read_max_charging whole qpiri = normalize_amps whole (lookup "max_charging_current" qpiri)

-- The current, and the text that was read.
unfoldable pub read_max_utility :
    (Value → Text) → (Value → Option ℤ) → Section → Option Text × Option Text
read_max_utility str whole qpiri =
    let raw = lookup "max_utility_charging_current" qpiri in
    (normalize_amps whole raw, elim raw [ none ↦ none | some v ↦ some (str v) ])

-- What `async_select_option` sends on a PI30 transport, `none` for an option that is refused.
unfoldable pub select_output : Text → Option Text
select_output option = elim (lookup option map_output) [
  | none ↦ none
  | some s ↦ some (output_command s)
]

unfoldable pub select_charge : Text → Option Text
select_charge option = elim (lookup option map_charge) [
  | none ↦ none
  | some s ↦ some (charge_command s)
]

unfoldable pub select_max_utility : Option Text → Text → Option Text
select_max_utility raw_readback option =
    if is_one_of option utility_options
    then some (
        max_utility_command (read_digits 0 option)
          (elim raw_readback [ none ↦ false | some raw ↦ contains_text (codes ".") raw ]))
    else none

unfoldable pub select_max_charging : Text → Option Text
select_max_charging option =
    if is_one_of option charging_options
    then some (max_combined_command (read_digits 0 option))
    else none
