-- ===== src/Base/Decimal.antt =====
-- `str(n)` and `f"{n:0wd}"` of a number, and what can be read back from it.
use Prim.Native.Nat.{ℕ, zero, suc, ◌+◌, ◌-◌, ◌*◌, ◌/◌, ◌%◌, ◌^◌, ◌≤◌, ◌<◌}
use mathlib.Core.Path.{◌≡◌, refl, ap, sym, ◌∙◌}
use mathlib.Core.Logic.{inl, inr}
use mathlib.Core.Bool.{true}
use mathlib.Core.List.{[], ◌∷◌, ◌++◌}
use native.Mathlib.Omega.{arith}
use home_assistant_dess_moni.Base.Tests.{ltb, Bool-cases, if◌then◌else◌}
use home_assistant_dess_moni.Base.Lists.{length, replicate, All, length-append}
use home_assistant_dess_moni.Base.Text.{Text}

-- The digits of `n` in front of `rest`. A number has no more digits than it counts, plus one.
abbrev digits_from : ℕ → ℕ → Text → Text
digits_from zero n rest = rest
digits_from (suc f) n rest =
    let more = digits_from f (n / 10) ((b'0' + n % 10) ∷ rest) in
    if ltb n 10 then (b'0' + n) ∷ rest else more

unfoldable pub decimal : ℕ → Text
decimal n = digits_from (suc n) n []

-- `f"{n:0{width}d}"`
unfoldable pub padded : ℕ → ℕ → Text
padded width n = replicate (width - length (decimal n)) b'0' ++ decimal n

-- The number that digits stand for, behind the value of those already read.
abbrev pub read_digits : ℕ → Text → ℕ
read_digits acc [] = acc
read_digits acc (c ∷ s) = read_digits (acc * 10 + (c - b'0')) s

read-digits_from :
    (f n : ℕ) (rest : Text) → n < f → read_digits 0 (digits_from f n rest) ≡ read_digits n rest
read-digits_from zero n rest h = absurd (omega arith)
read-digits_from (suc f) n rest h = elim (Bool-cases (ltb n 10)) [
  | inl small ↦
      rw small
        (ap (λ (t : ℕ). read_digits t rest) {x = 0 + (b'0' + n - b'0')} {y = n} (omega arith))
  | inr large ↦ rw large (
      read-digits_from f (n / 10) ((b'0' + n % 10) ∷ rest) (ground arith)
      ∙ ap (λ (t : ℕ). read_digits t rest) {x = n / 10 * 10 + (b'0' + n % 10 - b'0')} {y = n}
          (omega arith))
]

pub read-decimal : (n : ℕ) → read_digits 0 (decimal n) ≡ n
unfolding decimal
read-decimal n = read-digits_from (suc n) n [] (omega arith)

pub decimal-injective : (m n : ℕ) → decimal m ≡ decimal n → m ≡ n
decimal-injective m n e = sym (read-decimal m) ∙ ap (read_digits 0) e ∙ read-decimal n

abbrev pub IsDigit : ℕ → Type 0
IsDigit c = (b'0' ≤ c) × (c ≤ b'9')

digits_from-digits : (f n : ℕ) (rest : Text) → All IsDigit rest → All IsDigit (digits_from f n rest)
digits_from-digits zero n rest h = h
digits_from-digits (suc f) n rest h = elim (Bool-cases (ltb n 10)) [
  | inl small ↦ rw small (ground arith)
  | inr large ↦
      rw large
        (digits_from-digits f (n / 10) ((b'0' + n % 10) ∷ rest) ((omega arith, omega arith), h))
]

pub decimal-digits : (n : ℕ) → All IsDigit (decimal n)
unfolding decimal
decimal-digits n = digits_from-digits (suc n) n [] tt

read_digits-zeros : (k : ℕ) (s : Text) → read_digits 0 (replicate k b'0' ++ s) ≡ read_digits 0 s
read_digits-zeros zero s = refl
read_digits-zeros (suc k) s = read_digits-zeros k s

pub read-padded : (width n : ℕ) → read_digits 0 (padded width n) ≡ n
unfolding padded
read-padded width n = read_digits-zeros (width - length (decimal n)) (decimal n) ∙ read-decimal n

-- `w + 1` digits are enough for a number below 10 ^ (w + 1).
length-digits_from :
    (f w n : ℕ) (rest : Text) → n < 10 ^ suc w → length (digits_from f n rest) ≤ suc w + length rest
length-digits_from zero w n rest h = omega arith
length-digits_from (suc f) zero n rest h =
    let small : ltb n 10 ≡ true = ground arith in rw small (omega arith)
length-digits_from (suc f) (suc w) n rest h =
    let more = length-digits_from f w (n / 10) ((b'0' + n % 10) ∷ rest) (omega arith) in
    ground (arith, more)

length-replicate : (k : ℕ) (c : ℕ) → length (replicate k c) ≡ k
length-replicate zero c = refl
length-replicate (suc k) c = omega (arith, length-replicate k c)

pub length-padded : (w n : ℕ) → n < 10 ^ suc w → length (padded (suc w) n) ≡ suc w
unfolding padded decimal
length-padded w n h = omega (
  arith,
  length-digits_from (suc n) w n [] h,
  length-append (replicate (suc w - length (decimal n)) b'0') (decimal n),
  length-replicate (suc w - length (decimal n)) b'0',
)
