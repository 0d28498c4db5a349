-- ===== src/Soc/Sync.antt =====
-- When the time of the last full charge is stamped.
use home_assistant_dess_moni.Base.{
  ℕ, ◌≡◌, ◌⊎◌, ◌∙◌, refl, arith, Option, none, some, Bool-cases, inl, inr, leb,
}
use home_assistant_dess_moni.Base.Float.{Float, zero_f}
use home_assistant_dess_moni.Soc.Estimator.{
  SocEstimator, Tick, update, integrate, snap, next_ticks, mirrored, by_voltage, by_mode,
  by_capacity, sync_debounce_ticks, stamped,
}

stamped_cases :
    (F : Float) (Stamp : Type 0) (ticks : ℕ) (now last : Option Stamp)
    → (stamped F Stamp ticks now last ≡ last)
      ⊎ ((stamped F Stamp ticks now last ≡ now) × (ticks ≡ 3))
stamped_cases F Stamp ticks none last = inl refl
stamped_cases F Stamp ticks (some now) last = ground arith

module _ {F : Float} {Stamp : Type 0} where
  open F use {Real, le}

  -- What one tick may do to the stamp: nothing, or the time of the tick with the counter at three, where
  -- the charge is the capacity.
  pub data Stamped (i : Tick F Stamp) (s t : SocEstimator F Stamp) : Type 0 where
    kept : t.last_sync_at ≡ s.last_sync_at → Stamped i s t
    full :
        t.last_sync_at ≡ i.wall_now
        → t.at_sync_ticks ≡ sync_debounce_ticks
        → t.capacity_ah ≡ some t.accumulated_charge_ah
        → (s.at_sync_ticks ≡ 2) ⊎ (s.at_sync_ticks ≡ 4)
        → Stamped i s t

  next_ticks-three :
      (c sync : Real) (i : Tick F Stamp) (s : SocEstimator F Stamp)
      → next_ticks F Stamp c sync i s ≡ 3
      → (s.at_sync_ticks ≡ 2) ⊎ (s.at_sync_ticks ≡ 4)
  unfolding next_ticks
  next_ticks-three c sync i s h = ground arith

  integrate-kept :
      (i : Tick F Stamp) (s : SocEstimator F Stamp)
      → ((integrate F Stamp i s).capacity_ah ≡ s.capacity_ah)
        × ((integrate F Stamp i s).last_sync_at ≡ s.last_sync_at)
  unfolding integrate
  integrate-kept i s = ground arith

  snap-Stamped :
      (c : Real) (ticks : ℕ) (i : Tick F Stamp) (s t : SocEstimator F Stamp)
      → t.capacity_ah ≡ some c
      → t.last_sync_at ≡ s.last_sync_at
      → (ticks ≡ 3 → (s.at_sync_ticks ≡ 2) ⊎ (s.at_sync_ticks ≡ 4))
      → Stamped i s (snap F Stamp c ticks i t)
  unfolding snap
  snap-Stamped c ticks i s t e l n = elim (Bool-cases (leb sync_debounce_ticks ticks)) [
    | inl reached ↦ rw reached (elim (stamped_cases F Stamp ticks i.wall_now t.last_sync_at) [
      | inl same ↦ kept (same ∙ l)
      | inr (now, three) ↦ full now three e (n three)
    ])
    | inr below ↦ rw below (kept l)
  ]

  by_voltage-Stamped :
      (c : Real) (i : Tick F Stamp) (s : SocEstimator F Stamp) (sync : Option Real)
      → s.capacity_ah ≡ some c
      → Stamped i s (by_voltage F Stamp c i s sync)
  by_voltage-Stamped c i s none e = kept refl
  by_voltage-Stamped c i s (some sync) e =
      let (same, last) = integrate-kept i s in
      snap-Stamped c (next_ticks F Stamp c sync i s) i s (integrate F Stamp i s) (same ∙ e) last
        (next_ticks-three c sync i s)

  by_mode-Stamped :
      (c : Real) (i : Tick F Stamp) (s : SocEstimator F Stamp) (bms_soc : Option Real)
      → s.capacity_ah ≡ some c
      → Stamped i s (by_mode F Stamp c i s bms_soc)
  by_mode-Stamped c i s none e = by_voltage-Stamped c i s i.sync_voltage e
  by_mode-Stamped c i s (some soc) e = kept refl

  by_capacity-Stamped :
      (i : Tick F Stamp) (s : SocEstimator F Stamp) (capacity : Option Real)
      → s.capacity_ah ≡ capacity
      → Stamped i s (by_capacity F Stamp i s capacity)
  by_capacity-Stamped i s none e = kept refl
  by_capacity-Stamped i s (some c) e = elim (Bool-cases (le c (zero_f F))) [
    | inl p ↦ rw p (kept refl)
    | inr p ↦ rw p (by_mode-Stamped c i s (mirrored F Stamp s.mode i.bms_soc) e)
  ]

  -- A tick leaves the time of the last full charge as it was, or sets it to the time of the tick; then
  -- the counter of ticks at the full voltage has come to three, from two or from four, and the charge is
  -- the capacity.
  pub update-Stamped :
      (i : Tick F Stamp) (s : SocEstimator F Stamp) → Stamped i s (update F Stamp i s)
  unfolding update
  update-Stamped i s = by_capacity-Stamped i s s.capacity_ah refl
