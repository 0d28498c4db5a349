-- ===== src/Base/Units.antt =====
-- Floats that count whole units, for runs of what takes the arithmetic as a parameter.
use Prim.Native.Nat.{ℕ, zero, suc, ◌+◌, ◌-◌, ◌*◌, ◌/◌, ◌^◌}
use mathlib.Core.Path.{◌≡◌, refl}
use mathlib.Core.Bool.{true}
use native.Mathlib.Omega.{arith}
use home_assistant_dess_moni.Base.Tests.{leb}
use home_assistant_dess_moni.Base.Float.{Float, IsOrdered, IsMonotone, Within}

abbrev pub units : Float
units = record {
  Real = ℕ;
  le = leb;
  add = λ a b. a + b;
  sub = λ a b. a - b;
  mul = λ a b. a * b;
  div = λ a b. a / b;
  neg = λ a. 0;
  lit = λ n k. n / 10 ^ k;
  round2 = λ a. a;
}

pub units-IsOrdered : IsOrdered units
units-IsOrdered = record { le_total = λ a b. ground arith; le_trans = λ a b c h k. ground arith }

fraction_lem : (a b : ℕ) → Within units 0 1 a → leb 0 b ≡ true → Within units 0 b (a * b)
fraction_lem zero b h k = ground arith
fraction_lem (suc zero) b h k = ground arith
fraction_lem (suc (suc a)) b h k = ground arith

pub units-IsMonotone : IsMonotone units
units-IsMonotone = record {
  one_pos = refl;
  hundred_pos = refl;
  add_pos = λ a b h. ground arith;
  mul_fraction = fraction_lem;
  percent = λ a h. ground arith;
  to_percent = λ a h. ground arith;
  round2_percent = λ a h. h;
}
