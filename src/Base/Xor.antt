-- ===== src/Base/Xor.antt =====
-- Laws of exclusive or on the native numbers, from the recursion on binary digits.
use Prim.Native.Nat.{
  ℕ, zero, suc, ◌+◌, ◌*◌, ◌/◌, ◌%◌, ◌^◌, ◌≤◌, ◌<◌, bit_xor, digits, differ, bit_xor-bitwise,
}
use mathlib.Core.Path.{◌≡◌, refl, sym, ap, ap₂, ◌∙◌}
use native.Mathlib.Nat.{pow-suc, one-le-pow, mul-add-div_right, div-add-mod', div-eq_of_lt}
use native.Mathlib.Omega.{arith}

abbrev xor_digits : ℕ → ℕ → ℕ → ℕ
xor_digits n a b = digits (λ b. b) differ n a b

xor_digits_fuel : (n m a b : ℕ) → a ≤ n → a ≤ m → xor_digits n a b ≡ xor_digits m a b
xor_digits_fuel zero zero a b p q = refl
xor_digits_fuel zero (suc m) zero b p q = refl
xor_digits_fuel zero (suc m) (suc a) b p q = absurd (omega arith)
xor_digits_fuel (suc n) zero zero b p q = refl
xor_digits_fuel (suc n) zero (suc a) b p q = absurd (omega arith)
xor_digits_fuel (suc n) (suc m) zero b p q = refl
xor_digits_fuel (suc n) (suc m) (suc a) b p q =
    omega (arith, xor_digits_fuel n m (suc a / 2) (b / 2) (omega arith) (omega arith))

pub xor-zero_left : (b : ℕ) → bit_xor 0 b ≡ b
xor-zero_left b = bit_xor-bitwise 0 b

differ-bits : (x y : ℕ) → x < 2 → y < 2 → differ x y ≡ (x + y) % 2
differ-bits zero y p q = omega arith
differ-bits (suc zero) zero p q = omega arith
differ-bits (suc zero) (suc zero) p q = omega arith
differ-bits (suc zero) (suc (suc y)) p q = absurd (omega arith)
differ-bits (suc (suc x)) y p q = absurd (omega arith)

-- The lowest digit is the sum of the lowest digits, modulo two.
pub xor_step : (a b : ℕ) → bit_xor a b ≡ bit_xor (a / 2) (b / 2) * 2 + (a + b) % 2
xor_step zero b = omega (arith, xor-zero_left b, xor-zero_left (b / 2))
xor_step (suc a) b = omega (
  arith,
  bit_xor-bitwise (suc a) b,
  bit_xor-bitwise (suc a / 2) (b / 2),
  differ-bits (suc a % 2) (b % 2) (omega arith) (omega arith),
  xor_digits_fuel a (suc a / 2) (suc a / 2) (b / 2) (omega arith) (omega arith),
)

xor_comm_fuel : (n a b : ℕ) → a + b ≤ n → bit_xor a b ≡ bit_xor b a
xor_comm_fuel zero zero zero h = refl
xor_comm_fuel zero zero (suc b) h = absurd (omega arith)
xor_comm_fuel zero (suc a) b h = absurd (omega arith)
xor_comm_fuel (suc n) zero zero h = refl
xor_comm_fuel (suc n) zero (suc b) h =
    omega
      (arith, xor_step 0 (suc b), xor_step (suc b) 0, xor_comm_fuel n 0 (suc b / 2) (omega arith))
xor_comm_fuel (suc n) (suc a) b h = omega (
  arith,
  xor_step (suc a) b,
  xor_step b (suc a),
  xor_comm_fuel n (suc a / 2) (b / 2) (omega arith),
)

pub xor_comm : (a b : ℕ) → bit_xor a b ≡ bit_xor b a
xor_comm a b = xor_comm_fuel (a + b) a b (omega arith)

pub xor-half : (a b : ℕ) → bit_xor a b / 2 ≡ bit_xor (a / 2) (b / 2)
xor-half a b = omega (arith, xor_step a b)

pub xor-parity : (a b : ℕ) → bit_xor a b % 2 ≡ (a + b) % 2
xor-parity a b = omega (arith, xor_step a b)

xor_assoc_fuel : (n a b c : ℕ) → a ≤ n → bit_xor (bit_xor a b) c ≡ bit_xor a (bit_xor b c)
xor_assoc_fuel n zero b c h =
    ap (λ (t : ℕ). bit_xor t c) (xor-zero_left b) ∙ sym (xor-zero_left (bit_xor b c))
xor_assoc_fuel zero (suc a) b c h = absurd (omega arith)
xor_assoc_fuel (suc n) (suc a) b c h = omega (
  arith,
  xor_step (bit_xor (suc a) b) c,
  xor_step (suc a) (bit_xor b c),
  ap (λ (t : ℕ). bit_xor t (c / 2)) (xor-half (suc a) b),
  ap (λ (t : ℕ). bit_xor (suc a / 2) t) (xor-half b c),
  xor-parity (suc a) b,
  xor-parity b c,
  xor_assoc_fuel n (suc a / 2) (b / 2) (c / 2) (omega arith),
)

pub xor_assoc : (a b c : ℕ) → bit_xor (bit_xor a b) c ≡ bit_xor a (bit_xor b c)
xor_assoc a b c = xor_assoc_fuel a a b c (omega arith)

pub xor-double : (a b : ℕ) → bit_xor (a * 2) (b * 2) ≡ bit_xor a b * 2
xor-double a b = omega (
  arith,
  xor_step (a * 2) (b * 2),
  ap₂ (λ (s : ℕ) (t : ℕ). bit_xor s t) (half_double a) (half_double b),
)
  where
    half_double : (n : ℕ) → n * 2 / 2 ≡ n
    half_double n = omega arith

-- A shift to the left passes through.
pub xor-shift : (k a b : ℕ) → bit_xor (a * 2 ^ k) (b * 2 ^ k) ≡ bit_xor a b * 2 ^ k
xor-shift zero a b = ap₂ (λ (s : ℕ) (t : ℕ). bit_xor s t) (by_one a) (by_one b) ∙ sym (by_one _)
  where
    by_one : (n : ℕ) → n * 2 ^ 0 ≡ n
    by_one n = omega arith
xor-shift (suc k) a b =
    ap₂ (λ (s : ℕ) (t : ℕ). bit_xor s t) (out a) (out b)
    ∙ xor-double (a * 2 ^ k) (b * 2 ^ k)
    ∙ ap (λ (t : ℕ). t * 2) (xor-shift k a b)
    ∙ sym (out (bit_xor a b))
  where
    out : (n : ℕ) → n * 2 ^ suc k ≡ n * 2 ^ k * 2
    out n = omega (arith, ap (λ (t : ℕ). n * t) (pow-suc 2 k))

pub xor-lt : (k a b : ℕ) → a < 2 ^ k → b < 2 ^ k → bit_xor a b < 2 ^ k
xor-lt zero a b p q =
    let e : bit_xor a b ≡ bit_xor 0 0 =
      ap₂ (λ (s : ℕ) (t : ℕ). bit_xor s t) {y = 0} {v = 0} (omega arith) (omega arith) in
    omega arith
xor-lt (suc k) a b p q = omega (
  arith,
  xor_step a b,
  pow-suc 2 k,
  xor-lt k (a / 2) (b / 2) (omega (arith, pow-suc 2 k)) (omega (arith, pow-suc 2 k)),
)

pub mod_below : (k y : ℕ) → y % 2 ^ k < 2 ^ k
mod_below k y = omega (arith, one-le-pow k 2)

-- Numbers in disjoint fields are added.
pub xor_fields : (k q r : ℕ) → r < 2 ^ k → bit_xor (q * 2 ^ k) r ≡ q * 2 ^ k + r
xor_fields zero q r h =
    let e : r ≡ 0 = omega arith in
    xor_comm (q * 2 ^ 0) r
    ∙ ap (λ (t : ℕ). bit_xor t (q * 2 ^ 0)) e
    ∙ xor-zero_left (q * 2 ^ 0)
    ∙ omega arith
xor_fields (suc k) q r h = ground (
  arith,
  xor_step (q * 2 ^ suc k) r,
  ap (λ (t : ℕ). q * t) (pow-suc 2 k),
  xor_fields k q (r / 2) (omega (arith, pow-suc 2 k)),
)

pub xor_swap :
    (a b c d : ℕ) → bit_xor (bit_xor a b) (bit_xor c d) ≡ bit_xor (bit_xor a c) (bit_xor b d)
xor_swap a b c d =
    xor_assoc a b (bit_xor c d)
    ∙ ap (λ (t : ℕ). bit_xor a t)
        (sym (xor_assoc b c d) ∙ ap (λ (t : ℕ). bit_xor t d) (xor_comm b c) ∙ xor_assoc c b d)
    ∙ sym (xor_assoc a c (bit_xor b d))

-- The fields above and below a bit are combined each for itself.
pub xor_split :
    (k a b c d : ℕ)
    → b < 2 ^ k
    → d < 2 ^ k
    → bit_xor (a * 2 ^ k + b) (c * 2 ^ k + d) ≡ bit_xor a c * 2 ^ k + bit_xor b d
xor_split k a b c d p q =
    ap₂ (λ (s : ℕ) (t : ℕ). bit_xor s t) (sym (xor_fields k a b p)) (sym (xor_fields k c d q))
    ∙ xor_swap (a * 2 ^ k) b (c * 2 ^ k) d
    ∙ ap (λ (t : ℕ). bit_xor t (bit_xor b d)) (xor-shift k a c)
    ∙ xor_fields k (bit_xor a c) (bit_xor b d) (xor-lt k b d p q)

-- A number of at most `k` digits changes only the lowest `k` digits.
xor_small : (k y m : ℕ) → m < 2 ^ k → bit_xor y m ≡ y / 2 ^ k * 2 ^ k + bit_xor (y % 2 ^ k) m
xor_small k y m h =
    ap₂ (λ (s : ℕ) (t : ℕ). bit_xor s t) {y = y / 2 ^ k * 2 ^ k + y % 2 ^ k} {v = 0 * 2 ^ k + m}
      (omega arith) (omega arith)
    ∙ xor_split k (y / 2 ^ k) (y % 2 ^ k) 0 m (mod_below k y) h
    ∙ ap (λ (t : ℕ). t * 2 ^ k + bit_xor (y % 2 ^ k) m)
        (xor_comm (y / 2 ^ k) 0 ∙ xor-zero_left (y / 2 ^ k))

fields_low : (q r w : ℕ) → r < w → ((q * w + r) % w ≡ r) × ((q * w + r) / w ≡ q)
fields_low q r w h =
    let d : (q * w + r) / w ≡ q =
      mul-add-div_right (omega arith) q r ∙ omega (arith, div-eq_of_lt h) in
    (omega (arith, div-add-mod' (q * w + r) w, ap (λ (t : ℕ). t * w) d), d)

pub xor_low :
    (k y m : ℕ)
    → m < 2 ^ k
    → (bit_xor y m % 2 ^ k ≡ bit_xor (y % 2 ^ k) m) × (bit_xor y m / 2 ^ k ≡ y / 2 ^ k)
xor_low k y m h =
    let fields =
      fields_low (y / 2 ^ k) (bit_xor (y % 2 ^ k) m) (2 ^ k)
        (xor-lt k (y % 2 ^ k) m (mod_below k y) h) in
    (
      ap (λ (t : ℕ). t % 2 ^ k) (xor_small k y m h) ∙ fields.0,
      ap (λ (t : ℕ). t / 2 ^ k) (xor_small k y m h) ∙ fields.1,
    )

-- The remainder by a power of two passes through.
pub xor-mod : (k a b : ℕ) → bit_xor a b % 2 ^ k ≡ bit_xor (a % 2 ^ k) (b % 2 ^ k)
xor-mod k a b =
    ap (λ (t : ℕ). t % 2 ^ k)
      (ap₂ (λ (s : ℕ) (t : ℕ). bit_xor s t) {y = a / 2 ^ k * 2 ^ k + a % 2 ^ k}
          {v = b / 2 ^ k * 2 ^ k + b % 2 ^ k} (omega arith) (omega arith)
        ∙ xor_split k (a / 2 ^ k) (a % 2 ^ k) (b / 2 ^ k) (b % 2 ^ k) (mod_below k a)
            (mod_below k b))
    ∙ (fields_low (bit_xor (a / 2 ^ k) (b / 2 ^ k)) (bit_xor (a % 2 ^ k) (b % 2 ^ k)) (2 ^ k)
        (xor-lt k (a % 2 ^ k) (b % 2 ^ k) (mod_below k a) (mod_below k b))).0
