-- ===== src/Modbus/Snapshot.antt =====
-- An SMG-II with given registers is read through whole frames.
use home_assistant_dess_moni.Base.{
  ℕ, zero, suc, ◌+◌, ◌-◌, ◌*◌, ◌^◌, ◌<◌, ◌≡◌, refl, ap, ap₂, sym, ◌∙◌, arith, Bool, true, not, ◌&&◌,
  List, [], ◌∷◌, some, All, length, get_elem?, leb, ltb, eqb,
}
use home_assistant_dess_moni.Base.Join.{or_fields}
use home_assistant_dess_moni.Modbus.Framing.{Outcome, ok, parse_read_holding_response}
use home_assistant_dess_moni.Modbus.Roundtrip.{read_answer, read-answer}
use home_assistant_dess_moni.Modbus.Smg2.{
  Table, Fields, Faults, entry_value, sensor_table, config_table, read_fields, add_entry, faults_of,
  fields_read, faults_read, describe, read_smg2_snapshot_via,
}

-- Registers `start` and on of a device.
abbrev pub block_of : (ℕ → ℕ) → ℕ → ℕ → List ℕ
block_of memory start zero = []
block_of memory start (suc count) = memory start ∷ block_of memory (suc start) count

-- A read of the registers of unit `unit_id`, through the frame of its answer.
abbrev pub read_device : (ℕ → ℕ) → ℕ → ℕ → ℕ → Outcome (List ℕ)
read_device memory unit_id start count =
    parse_read_holding_response (read_answer unit_id (block_of memory start count)) count unit_id

-- The entries of a table, each made of the register that the table names.
abbrev pub entries : (ℕ → ℕ) → Table → Fields
entries memory [] = []
entries memory ((name, addr, kind) ∷ table) =
    (name, entry_value kind (memory addr)) ∷ entries memory table

length-block_of : (memory : ℕ → ℕ) (start count : ℕ) → length (block_of memory start count) ≡ count
length-block_of memory start zero = refl
length-block_of memory start (suc count) = ap suc (length-block_of memory (suc start) count)

block_of-lt :
    (memory : ℕ → ℕ) (start count : ℕ)
    → ((a : ℕ) → memory a < 2 ^ 16)
    → All (λ r. r < 2 ^ 16) (block_of memory start count)
block_of-lt memory start zero h = tt
block_of-lt memory start (suc count) h = (h start, block_of-lt memory (suc start) count h)

read_device-ok :
    (memory : ℕ → ℕ) (unit_id start count : ℕ)
    → ((a : ℕ) → memory a < 2 ^ 16)
    → read_device memory unit_id start count ≡ ok (block_of memory start count)
read_device-ok memory unit_id start count h =
    ap
      (λ (n : ℕ).
        parse_read_holding_response (read_answer unit_id (block_of memory start count)) n unit_id)
      (sym (length-block_of memory start count))
    ∙ read-answer unit_id (block_of memory start count) (block_of-lt memory start count h)

get_elem?-block_of :
    (memory : ℕ → ℕ) (start count i : ℕ)
    → i < count
    → get_elem? (block_of memory start count) i ≡ some (memory (start + i))
get_elem?-block_of memory start zero i h = absurd (omega arith)
get_elem?-block_of memory start (suc count) zero h = ap (λ (a : ℕ). some (memory a)) (omega arith)
get_elem?-block_of memory start (suc count) (suc i) h =
    get_elem?-block_of memory (suc start) count i (omega arith)
    ∙ ap (λ (a : ℕ). some (memory a)) (omega arith)

-- The table names registers of the block only.
abbrev fits : ℕ → ℕ → Table → Bool
fits base count [] = true
fits base count ((name, addr, kind) ∷ table) =
    leb base addr && ltb addr (base + count) && fits base count table

read_fields-block_of :
    (memory : ℕ → ℕ) (base count : ℕ) (table : Table)
    → fits base count table ≡ true
    → read_fields base table (block_of memory base count) ≡ some (entries memory table)
unfolding read_fields
read_fields-block_of memory base count [] h = refl
read_fields-block_of memory base count ((name, addr, kind) ∷ table) h =
    let rest : fits base count table ≡ true = ground arith in
    ap₂ (add_entry name kind)
      (get_elem?-block_of memory base count (addr - base) (ground arith)
        ∙ ap (λ (a : ℕ). some (memory a)) (ground arith))
      (read_fields-block_of memory base count table rest)

device_fields :
    (memory : ℕ → ℕ) (unit_id base count : ℕ) (table : Table)
    → ((a : ℕ) → memory a < 2 ^ 16)
    → fits base count table ≡ true
    → fields_read base table (read_device memory unit_id base count) ≡ ok (entries memory table)
device_fields memory unit_id base count table h f =
    ap (fields_read base table) (read_device-ok memory unit_id base count h)
    ∙ rw (fields_read, read_fields-block_of memory base count table f) refl

abbrev expected_faults : ℕ → ℕ → Faults
expected_faults fault warning = record {
  fault_code = fault;
  warning_code = warning;
  has_fault = not (eqb fault 0);
  has_warning = not (eqb warning 0);
  fault_description = describe fault;
}

device_faults :
    (memory : ℕ → ℕ) (unit_id : ℕ)
    → ((a : ℕ) → memory a < 2 ^ 16)
    → faults_read (read_device memory unit_id 100 16)
      ≡ some (expected_faults (memory 100 * 2 ^ 16 + memory 101) (memory 108 * 2 ^ 16 + memory 109))
unfolding faults_of
device_faults memory unit_id h =
    ap faults_read (read_device-ok memory unit_id 100 16 h)
    ∙ ap₂ (λ (f : ℕ) (w : ℕ). some (expected_faults f w))
        (or_fields 16 (memory 100) (memory 101) (h 101))
        (or_fields 16 (memory 108) (memory 109) (h 109))

-- Read through frames, a device with registers below 2 ^ 16 gives every entry of the two tables
-- from the register that the tables name, and the two codes from registers 100 and 108, high
-- word first, with their flags.
pub snapshot-registers :
    (memory : ℕ → ℕ) (unit_id : ℕ)
    → ((a : ℕ) → memory a < 2 ^ 16)
    → let fault = memory 100 * 2 ^ 16 + memory 101 in
      let warning = memory 108 * 2 ^ 16 + memory 109 in
      read_smg2_snapshot_via (read_device memory unit_id)
      ≡ ok (
        entries memory sensor_table,
        entries memory config_table,
        some (record {
          fault_code = fault;
          warning_code = warning;
          has_fault = not (eqb fault 0);
          has_warning = not (eqb warning 0);
          fault_description = describe fault;
        }),
      )
unfolding read_smg2_snapshot_via
snapshot-registers memory unit_id h =
    rw
      (
        device_faults memory unit_id h,
        device_fields memory unit_id 201 31 sensor_table h refl,
        device_fields memory unit_id 300 38 config_table h refl,
      )
      refl
