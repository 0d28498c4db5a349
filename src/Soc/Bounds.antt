-- ===== src/Soc/Bounds.antt =====
-- The charge stays within the capacity, and the percentage between 0 and 100.
use home_assistant_dess_moni.Base.{
  ℕ, ◌≡◌, refl, ◌∙◌, arith, Bool, true, false, String, Option, none, some, Bool-cases, inl, inr,
  leb,
}
use home_assistant_dess_moni.Base.Float.{
  Float, IsOrdered, IsMonotone, Within, zero_f, clamp, clamp-Within,
}
use home_assistant_dess_moni.Soc.Estimator.{
  BatteryMode, li_voltage, li_bms, lead_acid, mode_named, SocEstimator, Tick, new_estimator,
  set_mode, set_deadband, set_capacity, restore, update, integrate, snap, next_ticks, mirrored,
  with_mode, anchored, with_capacity, sync_debounce_ticks, by_voltage, by_mode, by_capacity,
}

module _ (F : Float) (Stamp : Type 0) where
  open F use {Real, le, lit}

  abbrev pub ChargeOk : Option Real → Real → Type 0
  ChargeOk none charge = Unit
  ChargeOk (some c) charge = (le c (zero_f F) ≡ false) × Within F (zero_f F) c charge

  abbrev pub PercentOk : Option Real → Type 0
  PercentOk none = Unit
  PercentOk (some p) = Within F (zero_f F) (lit 100 0) p

  -- A capacity is positive and bounds the charge, and a percentage is one.
  pub record InRange (s : SocEstimator F Stamp) : Type 0 where
    pub charge : ChargeOk s.capacity_ah s.accumulated_charge_ah
    pub percent : PercentOk s.soc_percent

  -- The calls that the sensor makes. What is restored was stored in range, and a BMS reports a
  -- percentage.
  pub data Step (s : SocEstimator F Stamp) : SocEstimator F Stamp → Type 0 where
    mode : (m : String) → Step s (set_mode F Stamp s m)
    deadband : (b : Bool) (w n : Real) → Step s (set_deadband F Stamp s b w n)
    capacity : (v : Option Real) → Step s (set_capacity F Stamp s v)
    restored :
        (soc : Option Real) (charge : Real) (last : Option Stamp)
        → PercentOk soc
        → ChargeOk s.capacity_ah charge
        → Step s (restore F Stamp s soc charge last)
    tick : (i : Tick F Stamp) → PercentOk i.bms_soc → Step s (update F Stamp i s)

module _ {F : Float} (o : IsOrdered F) (k : IsMonotone F) where
  open F use {Real, le, lit, mul, div, round2}

  positive : (v : Real) → le v (zero_f F) ≡ false → le (zero_f F) v ≡ true
  positive v h = ground (arith, o.le_total v (zero_f F))

  whole_charge : (v : Real) → le v (zero_f F) ≡ false → Within F (zero_f F) v v
  whole_charge v h = (positive v h, ground (arith, o.le_total v v))

  fraction_of :
      (v a : Real)
      → le v (zero_f F) ≡ false
      → Within F (zero_f F) v (mul (clamp F a (zero_f F) (lit 1 0)) v)
  fraction_of v a h =
      k.mul_fraction _ v (clamp-Within F o a (zero_f F) (lit 1 0) k.one_pos) (positive v h)

  percent_of :
      (a : Real)
      → Within F (zero_f F) (lit 100 0) (round2 (mul (clamp F a (zero_f F) (lit 1 0)) (lit 100 0)))
  percent_of a =
      k.round2_percent _ (k.to_percent _ (clamp-Within F o a (zero_f F) (lit 1 0) k.one_pos))

  clamped : (a : Real) → Within F (zero_f F) (lit 100 0) (round2 (clamp F a (zero_f F) (lit 100 0)))
  clamped a = k.round2_percent _ (clamp-Within F o a (zero_f F) (lit 100 0) k.hundred_pos)

mirrored-PercentOk :
    (F : Float) (Stamp : Type 0) (m : BatteryMode) (bms_soc : Option F.Real)
    → PercentOk F Stamp bms_soc
    → PercentOk F Stamp (mirrored F Stamp m bms_soc)
mirrored-PercentOk F Stamp li_voltage bms_soc b = tt
mirrored-PercentOk F Stamp li_bms bms_soc b = b
mirrored-PercentOk F Stamp lead_acid bms_soc b = tt

module _ {F : Float} {Stamp : Type 0} (o : IsOrdered F) (k : IsMonotone F) where
  open F use {Real, le, lit}

  with_mode-InRange :
      (s : SocEstimator F Stamp) (m : Option BatteryMode)
      → InRange F Stamp s
      → InRange F Stamp (with_mode F Stamp s m)
  with_mode-InRange s none h = h
  with_mode-InRange s (some m) h = record { charge = h.charge; percent = h.percent }

  anchored-InRange :
      (s : SocEstimator F Stamp) (v : Real) (soc : Option Real)
      → le v (zero_f F) ≡ false
      → InRange F Stamp s
      → InRange F Stamp (anchored F Stamp s v soc)
  anchored-InRange s v none p h = record {
    charge = (p, whole_charge o k v p);
    percent = (k.hundred_pos, ground (arith, o.le_total (lit 100 0) (lit 100 0)));
  }
  anchored-InRange s v (some soc) p h = record {
    charge = (p, fraction_of o k v _ p);
    percent = h.percent;
  }

  with_capacity-InRange :
      (s : SocEstimator F Stamp) (v : Real) (old : Option Real)
      → le v (zero_f F) ≡ false
      → InRange F Stamp s
      → InRange F Stamp (with_capacity F Stamp s v old)
  with_capacity-InRange s v none p h = anchored-InRange s v s.soc_percent p h
  with_capacity-InRange s v (some old) p h = record {
    charge = (p, fraction_of o k v _ p);
    percent = percent_of o k _;
  }

  set_capacity-InRange :
      (s : SocEstimator F Stamp) (v : Option Real)
      → InRange F Stamp s
      → InRange F Stamp (set_capacity F Stamp s v)
  unfolding set_capacity
  set_capacity-InRange s none h = record { charge = tt; percent = h.percent }
  set_capacity-InRange s (some v) h = elim (Bool-cases (le v (zero_f F))) [
    | inl e ↦ rw e (record { charge = tt; percent = h.percent })
    | inr e ↦ rw e (with_capacity-InRange s v s.capacity_ah e h)
  ]

  integrate-capacity :
      (i : Tick F Stamp) (s : SocEstimator F Stamp)
      → (integrate F Stamp i s).capacity_ah ≡ s.capacity_ah
  unfolding integrate
  integrate-capacity i s = ground arith

  snap-InRange :
      (c : Real) (ticks : ℕ) (i : Tick F Stamp) (s : SocEstimator F Stamp)
      → s.capacity_ah ≡ some c
      → le c (zero_f F) ≡ false
      → InRange F Stamp (snap F Stamp c ticks i s)
  unfolding snap
  snap-InRange c ticks i s e p = elim (Bool-cases (leb sync_debounce_ticks ticks)) [
    | inl full ↦
        rw full
          (record { charge = rw e (p, whole_charge o k c p); percent = clamped o k (lit 100 0) })
    | inr part ↦ rw part (record {
      charge = rw e (p, clamp-Within F o s.accumulated_charge_ah (zero_f F) c (positive o k c p));
      percent = clamped o k _;
    })
  ]

  by_voltage-InRange :
      (c : Real) (i : Tick F Stamp) (s : SocEstimator F Stamp) (sync : Option Real)
      → s.capacity_ah ≡ some c
      → le c (zero_f F) ≡ false
      → InRange F Stamp s
      → InRange F Stamp (by_voltage F Stamp c i s sync)
  by_voltage-InRange c i s none e p h = record { charge = h.charge; percent = tt }
  by_voltage-InRange c i s (some sync) e p h =
      snap-InRange c (next_ticks F Stamp c sync i s) i (integrate F Stamp i s)
        (integrate-capacity i s ∙ e) p

  by_mode-InRange :
      (c : Real) (i : Tick F Stamp) (s : SocEstimator F Stamp) (bms_soc : Option Real)
      → s.capacity_ah ≡ some c
      → le c (zero_f F) ≡ false
      → PercentOk F Stamp bms_soc
      → InRange F Stamp s
      → InRange F Stamp (by_mode F Stamp c i s bms_soc)
  by_mode-InRange c i s none e p b h = by_voltage-InRange c i s i.sync_voltage e p h
  by_mode-InRange c i s (some soc) e p b h = record {
    charge = rw e (p, k.mul_fraction _ c (k.percent soc b) (positive o k c p));
    percent = k.round2_percent soc b;
  }

  by_capacity-InRange :
      (i : Tick F Stamp) (s : SocEstimator F Stamp) (capacity : Option Real)
      → s.capacity_ah ≡ capacity
      → PercentOk F Stamp i.bms_soc
      → InRange F Stamp s
      → InRange F Stamp (by_capacity F Stamp i s capacity)
  by_capacity-InRange i s none e b h = record { charge = h.charge; percent = tt }
  by_capacity-InRange i s (some c) e b h = elim (Bool-cases (le c (zero_f F))) [
    | inl p ↦ rw p (record { charge = h.charge; percent = tt })
    | inr p ↦ rw p (
        by_mode-InRange c i s (mirrored F Stamp s.mode i.bms_soc) e p
          (mirrored-PercentOk F Stamp s.mode i.bms_soc b) h)
  ]

  pub Step-InRange :
      {s t : SocEstimator F Stamp} → Step F Stamp s t → InRange F Stamp s → InRange F Stamp t
  unfolding set_mode set_deadband restore update
  Step-InRange {s} (mode m) h = with_mode-InRange s (mode_named m) h
  Step-InRange (deadband b w n) h = record { charge = h.charge; percent = h.percent }
  Step-InRange {s} (capacity v) h = set_capacity-InRange s v h
  Step-InRange (restored soc charge last p c) h = record { charge = c; percent = p }
  Step-InRange {s} (tick i b) h = by_capacity-InRange i s s.capacity_ah refl b h

  pub new_estimator-InRange : InRange F Stamp (new_estimator F Stamp)
  unfolding new_estimator
  new_estimator-InRange = record { charge = tt; percent = tt }
