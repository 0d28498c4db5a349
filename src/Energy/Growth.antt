-- ===== src/Energy/Growth.antt =====
-- Energy never falls, and one update adds no more than its ceiling.
use home_assistant_dess_moni.Base.{
  ◌≡◌, refl, arith, true, ◌&&◌, List, [], ◌∷◌, Option, none, some, Bool-cases, inl, inr,
}
use home_assistant_dess_moni.Base.Float.{Float, IsOrdered, IsMonotone, Within, zero_f}
use home_assistant_dess_moni.Values.{Value, Section}
use home_assistant_dess_moni.Sanity.{max_step_wh}
use home_assistant_dess_moni.Energy.Meter.{
  Source, EnergySensor, Sample, absent, broken, power, or_zero, step_wh, reset, integrated,
  update_energy_value, sample, taken, handle_update, handle_all,
}

module _ {F : Float} {float : Value → Option F.Real} where
  open F use {Real, le, add, sub}

  abbrev pub energy : EnergySensor F float → Real
  energy s = or_zero F float s.native_value

  -- The energy is as before, or more by a step from 0 to the ceiling of the time since the last sample.
  pub data Grown (now : Real) (s t : EnergySensor F float) : Type 0 where
    same : energy t ≡ energy s → Grown now s t
    more :
        (step : Real)
        → Within F (zero_f F) (max_step_wh F float (sub now s.prev_ts)) step
        → energy t ≡ add (energy s) step
        → Grown now s t

  integrated-Grown :
      (s : EnergySensor F float) (now current : Real) (prev : Option Real)
      → Grown now s (integrated F float s now current prev)
  unfolding reset
  integrated-Grown s now current none = same refl
  integrated-Grown s now current (some prev) =
      let elapsed = sub now s.prev_ts in
      let step = step_wh F float elapsed prev current in
      let inside = le (zero_f F) step && le step (max_step_wh F float elapsed) in
      elim (Bool-cases inside) [
        | inl e ↦ rw e (more step (ground arith) refl)
        | inr e ↦ rw e (same refl)
      ]

  taken-Grown :
      (s : EnergySensor F float) (now : Real) (x : Sample F float)
      → Grown now s (taken F float s now x)
  unfolding update_energy_value reset
  taken-Grown s now absent = same refl
  taken-Grown s now broken = same refl
  taken-Grown s now (power p) = integrated-Grown s now p s.prev_power

  handle_update-Grown :
      (source : Source) (s : EnergySensor F float) (now : Real) (section : Section)
      → Grown now s (handle_update F float source s now section)
  unfolding handle_update
  handle_update-Grown source s now section = taken-Grown s now (sample F float source section)

module _ {F : Float} {float : Value → Option F.Real} (o : IsOrdered F) (k : IsMonotone F) where
  open F use {Real, le}

  Grown-le :
      {now : Real} {s t : EnergySensor F float} → Grown now s t → le (energy s) (energy t) ≡ true
  Grown-le {s = s} (same e) = rw e (ground (arith, o.le_total (energy s) (energy s)))
  Grown-le {s = s} (more step (p, _) e) = rw e (k.add_pos (energy s) step p)

  run-le :
      (source : Source) (s : EnergySensor F float) (updates : List (Real × Section))
      → le (energy s) (energy (handle_all F float source s updates)) ≡ true
  unfolding handle_all
  run-le source s [] = ground (arith, o.le_total (energy s) (energy s))
  run-le source s ((now, section) ∷ updates) =
      let t = handle_update F float source s now section in
      o.le_trans _ _ _ (Grown-le (handle_update-Grown source s now section))
        (run-le source t updates)

  -- Whatever a sensor reads, at whatever times, its energy after a run of updates is no less than
  -- before, and one more update leaves it as it is, or adds a step that is from 0 to the ceiling of the
  -- time since the sample before. The arithmetic keeps the order as the two hypotheses say.
  pub handle_all-Grown :
      (source : Source) (s : EnergySensor F float) (updates : List (Real × Section)) (now : Real)
      (section : Section)
      → let t = handle_all F float source s updates in
        (le (energy s) (energy t) ≡ true) × Grown now t (handle_update F float source t now section)
  handle_all-Grown source s updates now section = (
    run-le source s updates,
    handle_update-Grown source (handle_all F float source s updates) now section,
  )
