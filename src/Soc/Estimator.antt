-- ===== src/Soc/Estimator.antt =====
-- soc_core.py: `SocEstimator`. Operations of the object are functions of its state; what `update`
-- returns is the `soc_percent` of the state behind it.
use home_assistant_dess_moni.Base.{
  ℕ, ◌+◌, ◌-◌, Bool, true, false, ◌&&◌, String, Option, none, some, if◌then◌else◌, leb, eqb, ◌==◌,
  string_eq,
}
use home_assistant_dess_moni.Base.Float.{Float, lt, zero_f, abs_f, max_f, min_f, clamp}

pub data BatteryMode : Type 0 where
  li_voltage li_bms lead_acid : BatteryMode

-- `CHEMISTRY_PARAMS` knows these modes by their names.
unfoldable pub mode_named : String → Option BatteryMode
mode_named mode =
    if mode == "Lithium (Voltage)"
    then some li_voltage
    else if mode == "Lead-acid"
    then some lead_acid
    else if mode == "Lithium (BMS)"
    then some li_bms
    else none

-- `mode != self.mode`
abbrev pub same_mode : BatteryMode → BatteryMode → Bool
same_mode li_voltage li_voltage = true
same_mode li_bms li_bms = true
same_mode lead_acid lead_acid = true
same_mode _ _ = false

-- `SYNC_DEBOUNCE_TICKS`
abbrev pub sync_debounce_ticks : ℕ
sync_debounce_ticks = 3

module _ (F : Float) (Stamp : Type 0) where
  open F use {Real, le, add, sub, mul, div, neg, lit, round2}

  pub record ChemistryParams : Type 0 where
    pub charge_eff : Real
    pub discharge_eff : Real
    pub tail_c_rate : Real

  abbrev pub chemistry_params : BatteryMode → ChemistryParams
  chemistry_params li_voltage = record {
    charge_eff = lit 99 2;
    discharge_eff = lit 1 0;
    tail_c_rate = lit 5 2;
  }
  chemistry_params lead_acid = record {
    charge_eff = lit 90 2;
    discharge_eff = lit 95 2;
    tail_c_rate = lit 2 2;
  }
  chemistry_params li_bms = record {
    charge_eff = lit 1 0;
    discharge_eff = lit 1 0;
    tail_c_rate = lit 5 2;
  }

  pub record SocEstimator : Type 0 where
    pub capacity_ah : Option Real
    pub mode : BatteryMode
    pub deadband_enabled : Bool
    pub float_voltage_window : Real
    pub float_noise_floor : Real
    pub accumulated_charge_ah : Real
    pub at_sync_ticks : ℕ
    pub prev_current_a : Option Real
    pub prev_effective_current_a : Option Real
    pub prev_ts : Option Real
    pub last_sync_at : Option Stamp
    pub soc_percent : Option Real

  unfoldable pub new_estimator : SocEstimator
  new_estimator = record {
    capacity_ah = none;
    mode = li_voltage;
    deadband_enabled = true;
    float_voltage_window = lit 5 1;
    float_noise_floor = lit 15 1;
    accumulated_charge_ah = zero_f F;
    at_sync_ticks = 0;
    prev_current_a = none;
    prev_effective_current_a = none;
    prev_ts = none;
    last_sync_at = none;
    soc_percent = none;
  }

  abbrev pub with_mode : SocEstimator → Option BatteryMode → SocEstimator
  with_mode s none = s
  with_mode s (some m) = record s {
    mode = m;
    at_sync_ticks = if same_mode m s.mode then s.at_sync_ticks else 0;
  }

  unfoldable pub set_mode : SocEstimator → String → SocEstimator
  set_mode s mode = with_mode s (mode_named mode)

  unfoldable pub set_deadband : SocEstimator → Bool → Real → Real → SocEstimator
  set_deadband s enabled window noise_floor = record s {
    deadband_enabled = enabled;
    float_voltage_window = max_f F (zero_f F) window;
    float_noise_floor = max_f F (zero_f F) noise_floor;
  }

  -- The first time that the capacity is known.
  abbrev pub anchored : SocEstimator → Real → Option Real → SocEstimator
  anchored s value none = record s {
    capacity_ah = some value;
    accumulated_charge_ah = value;
    soc_percent = some (lit 100 0);
  }
  anchored s value (some soc) = record s {
    capacity_ah = some value;
    accumulated_charge_ah = mul (clamp F (div soc (lit 100 0)) (zero_f F) (lit 1 0)) value;
  }

  -- The fraction that an estimator of this capacity holds.
  abbrev pub fraction : SocEstimator → Real → Option Real → Real
  fraction s old none = if lt F (zero_f F) old then div s.accumulated_charge_ah old else lit 1 0
  fraction s old (some soc) =
      if lt F (zero_f F) old then div s.accumulated_charge_ah old else div soc (lit 100 0)

  -- A change of the capacity keeps the percentage.
  abbrev pub rescaled : SocEstimator → Real → Real → SocEstimator
  rescaled s value old =
      let frac = clamp F (fraction s old s.soc_percent) (zero_f F) (lit 1 0) in
      record s {
        capacity_ah = some value;
        accumulated_charge_ah = mul frac value;
        soc_percent = some (round2 (mul frac (lit 100 0)));
      }

  abbrev pub with_capacity : SocEstimator → Real → Option Real → SocEstimator
  with_capacity s value none = anchored s value s.soc_percent
  with_capacity s value (some old) = rescaled s value old

  unfoldable pub set_capacity : SocEstimator → Option Real → SocEstimator
  set_capacity s none = record s { capacity_ah = none }
  set_capacity s (some value) =
      if le value (zero_f F)
      then record s { capacity_ah = none }
      else with_capacity s value s.capacity_ah

  unfoldable pub restore : SocEstimator → Option Real → Real → Option Stamp → SocEstimator
  restore s soc accumulated last_sync = record s {
    soc_percent = soc;
    accumulated_charge_ah = accumulated;
    last_sync_at = last_sync;
  }

  -- The arguments of `update`.
  pub record Tick : Type 0 where
    pub signed_current_a : Real
    pub voltage : Real
    pub now : Real
    pub sync_voltage : Option Real
    pub floating_voltage : Option Real
    pub bms_soc : Option Real
    pub wall_now : Option Stamp

  -- What the BMS reports, where the mode mirrors it.
  abbrev pub mirrored : BatteryMode → Option Real → Option Real
  mirrored li_bms bms_soc = bms_soc
  mirrored _ bms_soc = none

  abbrev pub mirror : Real → Real → Tick → SocEstimator → SocEstimator
  mirror capacity bms_soc i s = record s {
    accumulated_charge_ah = mul (div bms_soc (lit 100 0)) capacity;
    prev_current_a = some i.signed_current_a;
    prev_effective_current_a = none;
    prev_ts = some i.now;
    at_sync_ticks = 0;
    soc_percent = some (round2 bms_soc);
  }

  abbrev pub near : SocEstimator → Tick → Option Real → Bool
  near s i none = false
  near s i (some floating) =
      lt F (abs_f F (sub i.voltage floating)) s.float_voltage_window
      && le (abs_f F i.signed_current_a) s.float_noise_floor

  unfoldable pub in_float_deadband : SocEstimator → Tick → Bool
  in_float_deadband s i = s.deadband_enabled && near s i i.floating_voltage

  unfoldable pub effective_current_a : SocEstimator → Tick → Real
  effective_current_a s i =
      let params = chemistry_params s.mode in
      if le (zero_f F) i.signed_current_a
      then mul i.signed_current_a params.charge_eff
      else div i.signed_current_a params.discharge_eff

  abbrev pub elapsed_seconds : Real → Option Real → Real
  elapsed_seconds now none = zero_f F
  elapsed_seconds now (some prev) = sub now prev

  -- The charge with the trapezoid of this tick.
  abbrev pub charged : Real → Real → Real → Option Real → Real
  charged charge elapsed current none = charge
  charged charge elapsed current (some prev) =
      add charge (div (mul (div elapsed (lit 3600 0)) (add prev current)) (lit 2 0))

  unfoldable pub integrate : Tick → SocEstimator → SocEstimator
  integrate i s =
      let current = effective_current_a s i in
      let elapsed = elapsed_seconds i.now s.prev_ts in
      if in_float_deadband s i
      then record s {
        prev_current_a = some i.signed_current_a;
        prev_effective_current_a = none;
        prev_ts = some i.now;
      }
      else record s {
        accumulated_charge_ah =
            charged s.accumulated_charge_ah elapsed current s.prev_effective_current_a;
        prev_current_a = some i.signed_current_a;
        prev_effective_current_a = some current;
        prev_ts = some i.now;
      }

  abbrev pub full_threshold : Real → Option Real → Real
  full_threshold sync none = sync
  full_threshold sync (some floating) =
      if lt F (zero_f F) floating then min_f F sync floating else sync

  -- `at_sync_ticks` behind the tick; `max(0, ticks - 1)` is the subtraction on ℕ.
  unfoldable pub next_ticks : Real → Real → Tick → SocEstimator → ℕ
  next_ticks capacity sync i s =
      let tail = mul capacity (chemistry_params s.mode).tail_c_rate in
      let at_voltage = le (full_threshold sync i.floating_voltage) i.voltage in
      let at_tail = le (abs_f F i.signed_current_a) tail in
      if at_voltage && at_tail
      then s.at_sync_ticks + 1
      else if lt F i.signed_current_a (neg tail)
      then 0
      else s.at_sync_ticks - 1

  abbrev pub stamped : ℕ → Option Stamp → Option Stamp → Option Stamp
  stamped ticks none last = last
  stamped ticks (some now) last = if eqb ticks sync_debounce_ticks then some now else last

  unfoldable pub snap : Real → ℕ → Tick → SocEstimator → SocEstimator
  snap capacity ticks i s =
      let kept = clamp F s.accumulated_charge_ah (zero_f F) capacity in
      let percent = mul (div kept capacity) (lit 100 0) in
      if leb sync_debounce_ticks ticks
      then record s {
        at_sync_ticks = ticks;
        accumulated_charge_ah = capacity;
        last_sync_at = stamped ticks i.wall_now s.last_sync_at;
        soc_percent = some (round2 (clamp F (lit 100 0) (zero_f F) (lit 100 0)));
      }
      else record s {
        at_sync_ticks = ticks;
        accumulated_charge_ah = kept;
        soc_percent = some (round2 (clamp F percent (zero_f F) (lit 100 0)));
      }

  -- The branch of the voltage.
  abbrev pub by_voltage : Real → Tick → SocEstimator → Option Real → SocEstimator
  by_voltage capacity i s none = record s { soc_percent = none }
  by_voltage capacity i s (some sync) =
      snap capacity (next_ticks capacity sync i s) i (integrate i s)

  abbrev pub by_mode : Real → Tick → SocEstimator → Option Real → SocEstimator
  by_mode capacity i s none = by_voltage capacity i s i.sync_voltage
  by_mode capacity i s (some bms_soc) = mirror capacity bms_soc i s

  abbrev pub by_capacity : Tick → SocEstimator → Option Real → SocEstimator
  by_capacity i s none = record s { soc_percent = none }
  by_capacity i s (some capacity) =
      if le capacity (zero_f F)
      then record s { soc_percent = none }
      else by_mode capacity i s (mirrored s.mode i.bms_soc)

  unfoldable pub update : Tick → SocEstimator → SocEstimator
  update i s = by_capacity i s s.capacity_ah
