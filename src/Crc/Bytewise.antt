-- ===== src/Crc/Bytewise.antt =====
-- The nibble formula of `crc16_voltronic` computes the bit-by-bit XMODEM register.
use home_assistant_dess_moni.Base.{
  ℕ, zero, suc, ◌+◌, ◌*◌, ◌/◌, ◌%◌, ◌^◌, ◌<◌, bit_xor, ◌≡◌, refl, sym, ap, ap₂, ◌∙◌, arith, eqb,
  eqb_iff, List, [], ◌∷◌, All, map, true, ◌≤◌,
}
use home_assistant_dess_moni.Base.Xor.{
  xor_assoc, xor_comm, xor-double, xor_fields, xor_split, xor_low, xor-mod, xor-lt, xor-zero_left,
}
use home_assistant_dess_moni.Base.Table.{all_below, all_below-apply}
use home_assistant_dess_moni.Crc.{
  repeat, xmodem_round, xmodem_byte, xmodem_from, voltronic_byte, voltronic_from, crc16_voltronic,
  crc16_xmodem_bytes, bump,
}
use native.Mathlib.Nat.{pow-suc, one-le-pow}

shift_mask : (y l : ℕ) → l < 2 ^ 15 → bit_xor y (l * 2) % 2 ^ 16 ≡ bit_xor (y % 2 ^ 16) (l * 2)
shift_mask y l h = (xor_low 16 y (l * 2) (omega arith)).0

xor_right_comm : (a b c : ℕ) → bit_xor (bit_xor a b) c ≡ bit_xor (bit_xor a c) b
xor_right_comm a b c =
    xor_assoc a b c ∙ ap (λ (t : ℕ). bit_xor a t) (xor_comm b c) ∙ sym (xor_assoc a c b)

-- A mask that leaves bit 15 alone passes through a round, shifted by one place.
round_mask : (x l : ℕ) → l < 2 ^ 15 → xmodem_round (bit_xor x l) ≡ bit_xor (xmodem_round x) (l * 2)
unfolding xmodem_round
round_mask x l h = ground (
  arith,
  (xor_low 15 x l h).1,
  xor-double x l,
  shift_mask (x * 2) l h,
  shift_mask (bit_xor (x * 2) 0x1021) l h,
  xor_right_comm (x * 2) (l * 2) 0x1021,
)

times_small : (l m : ℕ) → 1 ≤ m → l * m < 2 ^ 15 → l < 2 ^ 15
times_small l m p h = grind arith

repeat_mask :
    (n x l : ℕ)
    → l * 2 ^ n < 2 ^ 16
    → repeat n xmodem_round (bit_xor x l) ≡ bit_xor (repeat n xmodem_round x) (l * 2 ^ n)
repeat_mask zero x l h = ap (λ (t : ℕ). bit_xor x t) {x = l} {y = l * 2 ^ 0} (omega arith)
repeat_mask (suc n) x l h =
    ap (repeat n xmodem_round) (
      round_mask x l (
        times_small l (2 ^ n) (one-le-pow n 2 (omega arith))
          (omega (arith, ap (λ (t : ℕ). l * t) (pow-suc 2 n)))))
    ∙ repeat_mask n (xmodem_round x) (l * 2) (omega (arith, ap (λ (t : ℕ). l * t) (pow-suc 2 n)))
    ∙ ap (λ (t : ℕ). bit_xor (repeat n xmodem_round (xmodem_round x)) t)
        (omega (arith, ap (λ (t : ℕ). l * t) (pow-suc 2 n)))

-- What one byte adds, by the value `h` of the register's high byte combined with the data byte.
abbrev nibble_mix : ℕ → ℕ
nibble_mix h =
    let x = bit_xor h (h / 2 ^ 4) in bit_xor (bit_xor (x * 2 ^ 12) (x * 2 ^ 5)) x % 2 ^ 16

mix_table : all_below 256 (λ h. eqb (repeat 8 xmodem_round (h * 2 ^ 8)) (nibble_mix h)) ≡ true
unfolding all_below xmodem_round
mix_table = refl

mix_eq : (h : ℕ) → h < 256 → repeat 8 xmodem_round (h * 2 ^ 8) ≡ nibble_mix h
mix_eq h p = (eqb_iff _ _).0 (
    all_below-apply 256 (λ h. eqb (repeat 8 xmodem_round (h * 2 ^ 8)) (nibble_mix h)) h mix_table p)

xmodem_byte_split :
    (crc b : ℕ)
    → crc < 2 ^ 16
    → b < 2 ^ 8
    → xmodem_byte crc b ≡ bit_xor (nibble_mix (bit_xor (crc / 2 ^ 8) b)) (crc % 2 ^ 8 * 2 ^ 8)
unfolding xmodem_byte
xmodem_byte_split crc b p q =
    let hi = crc / 2 ^ 8 in
    let lo = crc % 2 ^ 8 in
    ap (repeat 8 xmodem_round) (
      ap₂ (λ (s : ℕ) (t : ℕ). bit_xor s t) {y = hi * 2 ^ 8 + lo} {v = b * 2 ^ 8 + 0} (omega arith)
        (omega arith)
      ∙ xor_split 8 hi lo b 0 (omega arith) (omega arith)
      ∙ ap (λ (t : ℕ). bit_xor hi b * 2 ^ 8 + t) (xor_comm lo 0 ∙ xor-zero_left lo)
      ∙ sym (xor_fields 8 (bit_xor hi b) lo (omega arith)))
    ∙ repeat_mask 8 (bit_xor hi b * 2 ^ 8) lo (omega arith)
    ∙ ap (λ (t : ℕ). bit_xor t (lo * 2 ^ 8)) (mix_eq (bit_xor hi b) (xor-lt 8 hi b (omega arith) q))

voltronic_byte_split :
    (crc b : ℕ)
    → voltronic_byte crc b ≡ bit_xor (nibble_mix (bit_xor (crc / 2 ^ 8) b)) (crc % 2 ^ 8 * 2 ^ 8)
unfolding voltronic_byte
voltronic_byte_split crc b =
    let h = bit_xor (crc / 2 ^ 8) b in
    let x = bit_xor h (h / 2 ^ 4) in
    let rest = bit_xor (bit_xor (x * 2 ^ 12) (x * 2 ^ 5)) x in
    ap (λ (t : ℕ). t % 2 ^ 16)
      (ap (λ (t : ℕ). bit_xor t x) (xor_assoc (crc * 2 ^ 8) (x * 2 ^ 12) (x * 2 ^ 5))
        ∙ xor_assoc (crc * 2 ^ 8) (bit_xor (x * 2 ^ 12) (x * 2 ^ 5)) x
        ∙ xor_comm (crc * 2 ^ 8) rest)
    ∙ xor-mod 16 rest (crc * 2 ^ 8)
    ∙ ap (λ (t : ℕ). bit_xor (rest % 2 ^ 16) t) {x = crc * 2 ^ 8 % 2 ^ 16} {y = crc % 2 ^ 8 * 2 ^ 8}
        (omega arith)

pub voltronic-eq-xmodem_byte :
    (crc b : ℕ) → crc < 2 ^ 16 → b < 2 ^ 8 → voltronic_byte crc b ≡ xmodem_byte crc b
voltronic-eq-xmodem_byte crc b p q = voltronic_byte_split crc b ∙ sym (xmodem_byte_split crc b p q)

pub voltronic_byte-lt : (crc b : ℕ) → voltronic_byte crc b < 2 ^ 16
unfolding voltronic_byte
voltronic_byte-lt crc b = omega arith

-- The register after any bytes: both loops hold the same value.
pub voltronic_from-eq-xmodem_from :
    (crc : ℕ) (bytes : List ℕ)
    → crc < 2 ^ 16
    → All (λ b. b < 2 ^ 8) bytes
    → voltronic_from crc bytes ≡ xmodem_from crc bytes
unfolding voltronic_from xmodem_from
voltronic_from-eq-xmodem_from crc [] p q = refl
voltronic_from-eq-xmodem_from crc (b ∷ rest) p q =
    voltronic_from-eq-xmodem_from (voltronic_byte crc b) rest (voltronic_byte-lt crc b) q.1
    ∙ ap (λ (t : ℕ). xmodem_from t rest) (voltronic-eq-xmodem_byte crc b p q.0)

-- On bytes, `crc16_voltronic` is the XMODEM checksum, each of its two bytes moved off the frame
-- control bytes.
pub voltronic-eq-bumped_xmodem :
    (bytes : List ℕ)
    → All (λ b. b < 2 ^ 8) bytes
    → crc16_voltronic bytes ≡ map bump (crc16_xmodem_bytes bytes)
unfolding crc16_voltronic crc16_xmodem_bytes
voltronic-eq-bumped_xmodem bytes h =
    ap (λ (t : ℕ). bump (t / 2 ^ 8 % 2 ^ 8) ∷ bump (t % 2 ^ 8) ∷ [])
      (voltronic_from-eq-xmodem_from 0 bytes (omega arith) h)
