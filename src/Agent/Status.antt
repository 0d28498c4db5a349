-- ===== src/Agent/Status.antt =====
-- The status bits that the agent's snapshots are given, as the binary sensors read them, and the answer
-- of the adapter to QMOD.
use home_assistant_dess_moni.Base.{
  ℕ, Bool, true, false, ◌&&◌, ◌||◌, List, [], ◌∷◌, Option, some, String, string_eq, list_eq, nat_eq,
  ◌==◌,
}
use home_assistant_dess_moni.Base.Text.{Text, codes}
use home_assistant_dess_moni.Base.Float.{Float}
use home_assistant_dess_moni.Base.Bools.{same}
use home_assistant_dess_moni.Base.Dict.{Dict}
use home_assistant_dess_moni.Values.{text, OperatingMode}
use home_assistant_dess_moni.Decode.Bits.{parse_device_status_bits_b7_b0}
use home_assistant_dess_moni.Agent.Split.{bit, lower}
use home_assistant_dess_moni.Sensors.Binary.{status_bit}

abbrev pub sensor_of : String → List ℕ → Option Bool
sensor_of key bits = status_bit parse_device_status_bits_b7_b0 key (some (text bits))

abbrev word : Bool → Bool → Bool → Bool → List ℕ
word fault line overload on =
    bit fault ∷ b'0' ∷ b'0' ∷ bit line ∷ b'0' ∷ b'0' ∷ bit overload ∷ bit on ∷ []

-- The modes of PI30 in which an inverter feeds its output, and that of a fault.
abbrev pub is_running : OperatingMode → Bool
is_running OperatingMode.line = true
is_running OperatingMode.battery = true
is_running _ = false

abbrev pub is_faulty : OperatingMode → Bool
is_faulty OperatingMode.fault = true
is_faulty _ = false

abbrev is_on : Text → Bool
is_on name =
    name == codes "mains"
    || name == codes "offgrid"
    || name == codes "battery"
    || name == codes "line"
    || name == codes "bypass"

-- The test of a mode by its name, against the mode that the table has for the name.
abbrev agrees : Text → OperatingMode → Bool
agrees name m =
    same (lower name == codes "fault") (is_faulty m) && same (is_on (lower name)) (is_running m)

module _ (P : Text → OperatingMode → Bool) where
  abbrev all_entries : Dict Text OperatingMode → Bool
  all_entries [] = true
  all_entries ((name, m) ∷ table) = P name m && all_entries table
