-- ===== src/Decode/Enums.antt =====
-- api/decoders/enums.py: the read-back enumerations, each from the code on the wire to `.name`.
-- `none` is the ValueError of a code that the enumeration does not have.
use home_assistant_dess_moni.Base.{[], ◌∷◌, String, nat_eq, list_eq}
use home_assistant_dess_moni.Base.Text.{Text, codes}
use home_assistant_dess_moni.Base.Dict.{Dict}
use home_assistant_dess_moni.Values.{
  OperatingMode, power_on, standby, line, battery, shutdown_approaching, fault,
}

abbrev member : String → String → Text × Text
member code name = (codes code, codes name)

abbrev pub battery_type : Dict Text Text
battery_type =
    member "0" "AGM"
    ∷ member "1" "Flooded"
    ∷ member "2" "UserDefined"
    ∷ member "3" "LIB"
    ∷ member "4" "LIC"
    ∷ member "5" "RESERVED"
    ∷ member "6" "RESERVED_1"
    ∷ member "7" "RESERVED_2"
    ∷ []

abbrev pub ac_input_voltage_range : Dict Text Text
ac_input_voltage_range = member "0" "Appliance" ∷ member "1" "UPS" ∷ []

abbrev pub output_source_priority : Dict Text Text
output_source_priority =
    member "0" "UtilityFirst"
    ∷ member "1" "SolarFirst"
    ∷ member "2" "SBU"
    ∷ member "4" "BatteryOnly"
    ∷ member "5" "UtilityOnly"
    ∷ member "6" "SolarAndUtility"
    ∷ member "7" "Smart"
    ∷ []

abbrev pub charger_source_priority : Dict Text Text
charger_source_priority =
    member "0" "UtilityFirst"
    ∷ member "1" "SolarFirst"
    ∷ member "2" "SolarAndUtility"
    ∷ member "3" "OnlySolar"
    ∷ []

abbrev pub parallel_mode : Dict Text Text
parallel_mode =
    member "0" "Master"
    ∷ member "1" "Slave"
    ∷ member "2" "Standalone"
    ∷ member "3" "PARALLEL_1_PHASE"
    ∷ member "4" "PARALLEL_3_PHASE"
    ∷ []

abbrev pub operating_mode : Dict Text OperatingMode
operating_mode =
    (codes "P", power_on)
    ∷ (codes "S", standby)
    ∷ (codes "L", line)
    ∷ (codes "B", battery)
    ∷ (codes "D", shutdown_approaching)
    ∷ (codes "F", fault)
    ∷ []
