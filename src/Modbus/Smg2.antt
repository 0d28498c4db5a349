-- ===== src/Modbus/Smg2.antt =====
-- `read_smg2_snapshot_via`: the three blocks of registers of an SMG-II, as named values.
use home_assistant_dess_moni.Base.{
  ℕ, ◌-◌, ◌*◌, ◌^◌, bit_or, Bool, not, List, [], ◌∷◌, Option, none, some, String, eqb, leb, ltb,
  if◌then◌else◌, length, get_elem?, get_or, nat_eq,
}
use home_assistant_dess_moni.Base.Text.{Text, codes}
use home_assistant_dess_moni.Base.Int.{ℤ, pos, sub_ℕ}
use home_assistant_dess_moni.Base.Dict.{Dict, lookup}
use home_assistant_dess_moni.Values.{Value, int, text, decimal}
use home_assistant_dess_moni.Modbus.Framing.{Outcome, ok, failed, index_error}

-- A register, two's complement.
unfoldable pub i16 : ℕ → ℤ
i16 v = if leb 32768 v then sub_ℕ v 65536 else pos v

abbrev pub operation_modes : Dict ℕ Text
operation_modes =
    (0, codes "Power On")
    ∷ (1, codes "Standby")
    ∷ (2, codes "Mains")
    ∷ (3, codes "Off-Grid")
    ∷ (4, codes "Bypass")
    ∷ (5, codes "Charging")
    ∷ (6, codes "Fault")
    ∷ []

-- How an entry is made of its register: `R(a)`, `R(a) / 10.0`, `R(a) / 100.0`, `_i16(R(a))`,
-- `_i16(R(a)) / 10.0` and `_OPERATION_MODES.get(R(a))`.
pub data Kind : Type 0 where
  plain tenths hundredths signed signed_tenths operation : Kind

-- `none` is None.
unfoldable pub entry_value : Kind → ℕ → Option Value
unfolding i16
entry_value plain r = some (int (pos r))
entry_value tenths r = some (decimal (pos r) 1)
entry_value hundredths r = some (decimal (pos r) 2)
entry_value signed r = some (int (i16 r))
entry_value signed_tenths r = some (decimal (i16 r) 1)
entry_value operation r = elim (lookup r operation_modes) [
  | some name ↦ some (text name)
  | none ↦ none
]

abbrev pub Table : Type 0
Table = List (String × ℕ × Kind)

abbrev pub sensor_table : Table
sensor_table =
    ("operation_mode", 201, operation)
    ∷ ("mains_voltage", 202, tenths)
    ∷ ("mains_frequency", 203, hundredths)
    ∷ ("mains_power", 204, signed)
    ∷ ("inverter_voltage", 205, tenths)
    ∷ ("inverter_current", 206, signed_tenths)
    ∷ ("inverter_frequency", 207, hundredths)
    ∷ ("inverter_power", 208, signed)
    ∷ ("inverter_charge_power", 209, signed)
    ∷ ("output_voltage", 210, tenths)
    ∷ ("output_current", 211, signed_tenths)
    ∷ ("output_frequency", 212, hundredths)
    ∷ ("output_active_power", 213, signed)
    ∷ ("battery_voltage", 215, tenths)
    ∷ ("battery_current", 216, signed_tenths)
    ∷ ("battery_power", 217, signed)
    ∷ ("pv_voltage", 219, tenths)
    ∷ ("pv_current", 220, tenths)
    ∷ ("pv_power", 223, signed)
    ∷ ("pv_charge_power", 224, signed)
    ∷ ("load_percent", 225, plain)
    ∷ ("temp_dcdc", 226, plain)
    ∷ ("temp_inverter", 227, plain)
    ∷ []

abbrev pub config_table : Table
config_table =
    ("output_mode", 300, plain)
    ∷ ("output_priority", 301, plain)
    ∷ ("input_voltage_range", 302, plain)
    ∷ ("buzzer_mode", 303, plain)
    ∷ ("lcd_backlight", 305, plain)
    ∷ ("lcd_auto_return", 306, plain)
    ∷ ("energy_saving_mode", 307, plain)
    ∷ ("overload_auto_restart", 308, plain)
    ∷ ("overtemp_auto_restart", 309, plain)
    ∷ ("overload_transfer_to_bypass", 310, plain)
    ∷ ("battery_eq_enabled", 313, plain)
    ∷ ("output_voltage_setting", 320, tenths)
    ∷ ("output_freq_setting", 321, hundredths)
    ∷ ("battery_ovp", 323, tenths)
    ∷ ("max_charge_voltage", 324, tenths)
    ∷ ("float_charge_voltage", 325, tenths)
    ∷ ("battery_discharge_recovery_mains", 326, tenths)
    ∷ ("battery_low_protection_mains", 327, tenths)
    ∷ ("battery_low_protection_offgrid", 329, tenths)
    ∷ ("battery_charging_priority", 331, plain)
    ∷ ("max_charging_current", 332, tenths)
    ∷ ("max_mains_charging_current", 333, tenths)
    ∷ ("eq_charging_voltage", 334, tenths)
    ∷ ("eq_time_minutes", 335, plain)
    ∷ ("eq_timeout", 336, plain)
    ∷ ("eq_interval_days", 337, plain)
    ∷ []

abbrev pub Fields : Type 0
Fields = Dict String (Option Value)

abbrev pub add_entry : String → Kind → Option ℕ → Option Fields → Option Fields
add_entry name kind (some r) (some fields) = some ((name, entry_value kind r) ∷ fields)
add_entry name kind none fields = none
add_entry name kind (some r) none = none

-- The dict of a block that starts at register `base`; `none` is the IndexError of a short block.
unfoldable pub read_fields : ℕ → Table → List ℕ → Option Fields
unfolding entry_value
read_fields base [] block = some []
read_fields base ((name, addr, kind) ∷ table) block =
    add_entry name kind (get_elem? block (addr - base)) (read_fields base table block)

pub record Faults : Type 0 where
  pub fault_code : ℕ
  pub warning_code : ℕ
  pub has_fault : Bool
  pub has_warning : Bool
  -- `f"SMG-II fault 0x{fault_code:08X}"` is made of this number.
  pub fault_description : Option ℕ

abbrev pub describe : ℕ → Option ℕ
describe code = if eqb code 0 then none else some code

unfoldable pub faults_of : List ℕ → Option Faults
faults_of block =
    let fault = bit_or (get_or block 0 0 * 2 ^ 16) (get_or block 1 0) in
    let warning = bit_or (get_or block 8 0 * 2 ^ 16) (get_or block 9 0) in
    if ltb (length block) 10
    then none
    else some (record {
      fault_code = fault;
      warning_code = warning;
      has_fault = not (eqb fault 0);
      has_warning = not (eqb warning 0);
      fault_description = describe fault;
    })

-- No faults are read where the first block fails.
abbrev pub faults_read : Outcome (List ℕ) → Option Faults
faults_read (ok block) = faults_of block
faults_read (failed e) = none

abbrev pub fields_read : ℕ → Table → Outcome (List ℕ) → Outcome Fields
fields_read base table (failed e) = failed e
fields_read base table (ok block) = elim (read_fields base table block) [
  | some fields ↦ ok fields
  | none ↦ failed index_error
]

abbrev pub Snapshot : Type 0
Snapshot = Fields × Fields × Option Faults

abbrev pub combine : Option Faults → Outcome Fields → Outcome Fields → Outcome Snapshot
combine faults (failed e) config = failed e
combine faults (ok sensors) (failed e) = failed e
combine faults (ok sensors) (ok config) = ok (sensors, config, faults)

unfoldable pub read_smg2_snapshot_via : (ℕ → ℕ → Outcome (List ℕ)) → Outcome Snapshot
unfolding read_fields
read_smg2_snapshot_via read_block =
    combine (faults_read (read_block 100 16)) (fields_read 201 sensor_table (read_block 201 31))
      (fields_read 300 config_table (read_block 300 38))
