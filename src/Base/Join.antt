-- ===== src/Base/Join.antt =====
-- Two bytes in one word, joined by inclusive or.
use Prim.Native.Nat.{
  ℕ, zero, suc, ◌+◌, ◌*◌, ◌/◌, ◌%◌, ◌^◌, ◌≤◌, ◌<◌, bit_or, digits, max, bit_or-bitwise,
}
use mathlib.Core.Path.{◌≡◌, refl, ap, ◌∙◌}
use native.Mathlib.Nat.{pow-suc}
use native.Mathlib.Omega.{arith}

abbrev or_digits : ℕ → ℕ → ℕ → ℕ
or_digits n a b = digits (λ b. b) max n a b

or_digits_fuel : (n m a b : ℕ) → a ≤ n → a ≤ m → or_digits n a b ≡ or_digits m a b
or_digits_fuel zero zero a b p q = refl
or_digits_fuel zero (suc m) zero b p q = refl
or_digits_fuel zero (suc m) (suc a) b p q = absurd (omega arith)
or_digits_fuel (suc n) zero zero b p q = refl
or_digits_fuel (suc n) zero (suc a) b p q = absurd (omega arith)
or_digits_fuel (suc n) (suc m) zero b p q = refl
or_digits_fuel (suc n) (suc m) (suc a) b p q =
    omega (arith, or_digits_fuel n m (suc a / 2) (b / 2) (omega arith) (omega arith))

or-zero_left : (b : ℕ) → bit_or 0 b ≡ b
or-zero_left b = bit_or-bitwise 0 b

or_step : (a b : ℕ) → bit_or a b ≡ bit_or (a / 2) (b / 2) * 2 + max (a % 2) (b % 2)
or_step zero b = omega (arith, or-zero_left b, or-zero_left (b / 2))
or_step (suc a) b = omega (
  arith,
  bit_or-bitwise (suc a) b,
  bit_or-bitwise (suc a / 2) (b / 2),
  or_digits_fuel a (suc a / 2) (suc a / 2) (b / 2) (omega arith) (omega arith),
)

or-zero_right : (n a : ℕ) → a ≤ n → bit_or a 0 ≡ a
or-zero_right n zero h = or-zero_left 0
or-zero_right zero (suc a) h = absurd (omega arith)
or-zero_right (suc n) (suc a) h =
    omega (arith, or_step (suc a) 0, or-zero_right n (suc a / 2) (omega arith))

-- The low part is below the shift.
pub or_fields : (k q r : ℕ) → r < 2 ^ k → bit_or (q * 2 ^ k) r ≡ q * 2 ^ k + r
or_fields zero q r h =
    let e : r ≡ 0 = omega arith in
    ap (λ (t : ℕ). bit_or (q * 2 ^ 0) t) e
    ∙ or-zero_right (q * 2 ^ 0) (q * 2 ^ 0) (omega arith)
    ∙ omega arith
or_fields (suc k) q r h = ground (
  arith,
  or_step (q * 2 ^ suc k) r,
  ap (λ (t : ℕ). q * t) (pow-suc 2 k),
  or_fields k q (r / 2) (omega (arith, pow-suc 2 k)),
)

pub or_fields_swap : (k q r : ℕ) → r < 2 ^ k → bit_or r (q * 2 ^ k) ≡ r + q * 2 ^ k
or_fields_swap zero q r h =
    let e : r ≡ 0 = omega arith in
    ap (λ (t : ℕ). bit_or t (q * 2 ^ 0)) e ∙ or-zero_left (q * 2 ^ 0) ∙ omega arith
or_fields_swap (suc k) q r h = ground (
  arith,
  or_step r (q * 2 ^ suc k),
  ap (λ (t : ℕ). q * t) (pow-suc 2 k),
  or_fields_swap k q (r / 2) (omega (arith, pow-suc 2 k)),
)
