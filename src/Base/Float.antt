-- ===== src/Base/Float.antt =====
-- Python's `float`, as a parameter: the operations that the program calls. `lit n k` is the literal
-- n / 10 ^ k. The order laws are those of the numbers other than NaN.
use Prim.Native.Nat.{ℕ}
use mathlib.Core.Path.{◌≡◌}
use mathlib.Core.Logic.{◌⊎◌}
use mathlib.Core.Bool.{Bool, true, not}
use native.Mathlib.Omega.{arith}
use home_assistant_dess_moni.Base.Tests.{if◌then◌else◌}

pub record Float : Type 1 where
  pub Real : Type 0
  pub le : Real → Real → Bool
  pub add : Real → Real → Real
  pub sub : Real → Real → Real
  pub mul : Real → Real → Real
  pub div : Real → Real → Real
  pub neg : Real → Real
  pub lit : ℕ → ℕ → Real
  -- `round(x, 2)`
  pub round2 : Real → Real

-- The order of the numbers.
pub record IsOrdered (F : Float) : Type 0 where
  pub le_total : (a b : F.Real) → (F.le a b ≡ true) ⊎ (F.le b a ≡ true)
  pub le_trans : (a b c : F.Real) → F.le a b ≡ true → F.le b c ≡ true → F.le a c ≡ true

module _ (F : Float) where
  open F use {Real, le, neg, lit}

  -- `a < b`
  abbrev pub lt : Real → Real → Bool
  lt a b = not (le b a)

  abbrev pub zero_f : Real
  zero_f = lit 0 0

  -- `abs(a)`
  abbrev pub abs_f : Real → Real
  abs_f a = if le zero_f a then a else neg a

  -- `max(a, b)` keeps its first argument unless the second is greater, `min` unless it is less.
  abbrev pub max_f : Real → Real → Real
  max_f a b = if lt a b then b else a

  abbrev pub min_f : Real → Real → Real
  min_f a b = if lt b a then b else a

  -- `max(lo, min(hi, a))`
  abbrev pub clamp : Real → Real → Real → Real
  clamp a lo hi = max_f lo (min_f hi a)

  -- `lo <= a <= hi`
  abbrev pub Within : Real → Real → Real → Type 0
  Within lo hi a = (le lo a ≡ true) × (le a hi ≡ true)

-- What IEEE arithmetic keeps of the order, for the numbers other than NaN.
pub record IsMonotone (F : Float) : Type 0 where
  pub one_pos : F.le (zero_f F) (F.lit 1 0) ≡ true
  pub hundred_pos : F.le (zero_f F) (F.lit 100 0) ≡ true
  -- A sum with a number that is not negative.
  pub add_pos : (a b : F.Real) → F.le (zero_f F) b ≡ true → F.le a (F.add a b) ≡ true
  -- A fraction of a number that is not negative.
  pub mul_fraction :
      (a b : F.Real)
      → Within F (zero_f F) (F.lit 1 0) a
      → F.le (zero_f F) b ≡ true
      → Within F (zero_f F) b (F.mul a b)
  pub percent :
      (a : F.Real)
      → Within F (zero_f F) (F.lit 100 0) a
      → Within F (zero_f F) (F.lit 1 0) (F.div a (F.lit 100 0))
  pub to_percent :
      (a : F.Real)
      → Within F (zero_f F) (F.lit 1 0) a
      → Within F (zero_f F) (F.lit 100 0) (F.mul a (F.lit 100 0))
  pub round2_percent :
      (a : F.Real)
      → Within F (zero_f F) (F.lit 100 0) a
      → Within F (zero_f F) (F.lit 100 0) (F.round2 a)

module _ (F : Float) (ordered : IsOrdered F) where
  open F use {Real, le}

  pub clamp-Within : (a lo hi : Real) → le lo hi ≡ true → Within F lo hi (clamp F a lo hi)
  clamp-Within a lo hi h = ground (
    arith,
    ordered.le_total lo a,
    ordered.le_total a hi,
    ordered.le_total lo lo,
    ordered.le_total hi hi,
    ordered.le_total lo hi,
  )
