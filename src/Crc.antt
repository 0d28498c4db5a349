-- ===== src/Crc.antt =====
-- api/crc.py: the three checksum routines and the validators of response frames.
-- Bytes are numbers below 256 and a `bytes` object is a list of them.
pub mod Bytewise
pub mod Frame
pub mod Accept
mod Tests
use home_assistant_dess_moni.Base.{
  ℕ, zero, suc, ◌*◌, ◌/◌, ◌%◌, ◌^◌, bit_xor, Bool, ◌||◌, List, [], ◌∷◌, eqb, if◌then◌else◌,
}

-- `for _ in range(n)`.
abbrev pub repeat : ℕ → (ℕ → ℕ) → ℕ → ℕ
repeat zero f c = c
repeat (suc n) f c = repeat n f (f c)

-- One of the eight rounds of `crc16_xmodem`: `crc & 0x8000` is bit 15.
unfoldable pub xmodem_round : ℕ → ℕ
xmodem_round crc = (if eqb (crc / 2 ^ 15 % 2) 0 then crc * 2 else bit_xor (crc * 2) 0x1021) % 2 ^ 16

unfoldable pub xmodem_byte : ℕ → ℕ → ℕ
unfolding xmodem_round
xmodem_byte crc byte = repeat 8 xmodem_round (bit_xor crc (byte * 2 ^ 8))

unfoldable pub xmodem_from : ℕ → List ℕ → ℕ
unfolding xmodem_byte
xmodem_from crc [] = crc
xmodem_from crc (byte ∷ rest) = xmodem_from (xmodem_byte crc byte) rest

unfoldable pub crc16_xmodem : List ℕ → ℕ
unfolding xmodem_from
crc16_xmodem = xmodem_from 0

unfoldable pub crc16_xmodem_bytes : List ℕ → List ℕ
unfolding crc16_xmodem
crc16_xmodem_bytes bytes = let crc = crc16_xmodem bytes in (crc / 2 ^ 8) % 2 ^ 8 ∷ crc % 2 ^ 8 ∷ []

-- The body of the loop of `crc16_voltronic`.
unfoldable pub voltronic_byte : ℕ → ℕ → ℕ
voltronic_byte crc b =
    let x₀ = bit_xor (crc / 2 ^ 8) b in
    let x = bit_xor x₀ (x₀ / 2 ^ 4) in
    bit_xor (bit_xor (bit_xor (crc * 2 ^ 8) (x * 2 ^ 12)) (x * 2 ^ 5)) x % 2 ^ 16

unfoldable pub voltronic_from : ℕ → List ℕ → ℕ
unfolding voltronic_byte
voltronic_from crc [] = crc
voltronic_from crc (b ∷ rest) = voltronic_from (voltronic_byte crc b) rest

-- `in (0x28, 0x0D, 0x0A)`
unfoldable pub is_control : ℕ → Bool
is_control c = eqb c 0x28 || eqb c 0x0d || eqb c 0x0a

unfoldable pub bump : ℕ → ℕ
unfolding is_control
bump c = if is_control c then suc c else c

unfoldable pub crc16_voltronic : List ℕ → List ℕ
unfolding voltronic_from bump
crc16_voltronic bytes =
    let crc = voltronic_from 0 bytes in bump ((crc / 2 ^ 8) % 2 ^ 8) ∷ bump (crc % 2 ^ 8) ∷ []

-- One of the eight rounds of `crc16_modbus`.
unfoldable pub modbus_round : ℕ → ℕ
modbus_round crc = if eqb (crc % 2) 0 then crc / 2 else bit_xor (crc / 2) 0xa001

unfoldable pub modbus_from : ℕ → List ℕ → ℕ
unfolding modbus_round
modbus_from crc [] = crc
modbus_from crc (b ∷ rest) = modbus_from (repeat 8 modbus_round (bit_xor crc b)) rest

unfoldable pub crc16_modbus : List ℕ → ℕ
unfolding modbus_from
crc16_modbus bytes = modbus_from 0xffff bytes % 2 ^ 16
