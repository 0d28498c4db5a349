-- ===== src/Modbus/Adapter.antt =====
-- api/adapters/modbus.py: the cache of snapshots, the reads, and which register a setting is written to.
use home_assistant_dess_moni.Base.{
  ℕ, ◌*◌, Bool, false, [], Option, none, some, min, if◌then◌else◌, ◌==◌, string_eq, nat_eq, list_eq,
}
use home_assistant_dess_moni.Base.Text.{Text, codes}
use home_assistant_dess_moni.Base.Int.{ℤ, pos, negsuc}
use home_assistant_dess_moni.Base.Float.{Float, lt}
use home_assistant_dess_moni.Base.Dict.{Dict, lookup, insert}
use home_assistant_dess_moni.Values.{Section}
use home_assistant_dess_moni.Modbus.Framing.{Outcome, ok, failed}
use home_assistant_dess_moni.Modbus.Smg2.{Snapshot, Faults, Fields}
use home_assistant_dess_moni.Modbus.Projections.{smg2_to_qpigs, smg2_to_qpiri}

-- A snapshot that was read, `none` where the read failed.
abbrev pub read_result : Outcome Snapshot → Option Snapshot
read_result (ok snapshot) = some snapshot
read_result (failed e) = none

-- What `get_data` returns: a section, or the three dicts of the snapshot.
pub data Data : Type 0 where
  section : Section → Data
  whole : Fields → Fields → Option Faults → Data

module _ (F : Float) where
  open F use {Real, sub, lit}

  abbrev pub SnapshotCache : Type 0
  SnapshotCache = Dict Text (Real × Option Snapshot)

  -- `entry is not None and (now - entry[0]) < _SNAPSHOT_TTL`
  abbrev pub is_fresh : Real → Option (Real × Option Snapshot) → Bool
  is_fresh now none = false
  is_fresh now (some (at, snapshot)) = lt F (sub now at) (lit 50 1)

  abbrev pub cached : Option (Real × Option Snapshot) → Option Snapshot
  cached none = none
  cached (some (at, snapshot)) = snapshot

  -- `read` is what `read_smg2_snapshot_via` comes to, if it is called.
  unfoldable pub cached_snapshot :
      SnapshotCache → Text → Real → Outcome Snapshot → Option Snapshot × SnapshotCache
  cached_snapshot cache key now read =
      let entry = lookup key cache in
      let snapshot = read_result read in
      if is_fresh now entry
      then (cached entry, cache)
      else (snapshot, insert key (now, snapshot) cache)

abbrev pub projected : (ℤ → Text) → Text → Option Snapshot → Data
projected hundredths_as_tenths command none = section []
projected hundredths_as_tenths command (some (sensors, config, faults)) =
    if command == codes "QPIGS"
    then section (smg2_to_qpigs hundredths_as_tenths sensors)
    else if command == codes "QPIRI"
    then section (smg2_to_qpiri config)
    else whole sensors config faults

-- A register and the value that is written to it.
abbrev pub RegisterWrite : Type 0
RegisterWrite = ℕ × ℕ

-- The members of `OutputSourcePrioritySetting` and `ChargeSourcePrioritySetting`.
pub data OutputSetting : Type 0 where
  utility solar sbu : OutputSetting

pub data ChargeSetting : Type 0 where
  utility_charge solar_charge solar_and_utility : ChargeSetting

unfoldable pub output_priority_write : OutputSetting → RegisterWrite
output_priority_write utility = (301, 0)
output_priority_write solar = (301, 1)
output_priority_write sbu = (301, 2)

unfoldable pub charge_priority_write : ChargeSetting → RegisterWrite
charge_priority_write utility_charge = (331, 0)
charge_priority_write solar_charge = (331, 1)
charge_priority_write solar_and_utility = (331, 2)

-- `max(0, min(0xFFFF, n))`
abbrev pub word_of : ℤ → ℕ
word_of (pos n) = min 0xffff n
word_of (negsuc n) = 0

-- `tenths` is `int(round(voltage * 10.0))`.
unfoldable pub bulk_voltage_write : ℤ → RegisterWrite
bulk_voltage_write tenths = (324, word_of tenths)

unfoldable pub float_voltage_write : ℤ → RegisterWrite
float_voltage_write tenths = (325, word_of tenths)

unfoldable pub combined_current_write : ℕ → RegisterWrite
combined_current_write amps = (332, min 0xffff (amps * 10))

unfoldable pub utility_current_write : ℕ → RegisterWrite
utility_current_write amps = (333, amps * 10)
