-- ===== src/Crc/Tests.antt =====
-- Runs of the checksums on the vectors of tests/test_crc.py.
use home_assistant_dess_moni.Base.{◌≡◌, ◌↔◌, refl, arith, true, [], ◌∷◌, ◌++◌, map}
use home_assistant_dess_moni.Crc.{
  crc16_xmodem, crc16_voltronic, crc16_modbus, bump, crc16_xmodem_bytes,
}
use home_assistant_dess_moni.Crc.Frame.{validate_voltronic_response}
use home_assistant_dess_moni.Crc.Bytewise.{voltronic-eq-bumped_xmodem}
use home_assistant_dess_moni.Crc.Accept.{validate-accepts, Candidate}

check_xmodem :
    crc16_xmodem (0x31 ∷ 0x32 ∷ 0x33 ∷ 0x34 ∷ 0x35 ∷ 0x36 ∷ 0x37 ∷ 0x38 ∷ 0x39 ∷ []) ≡ 0x31c3
unfolding crc16_xmodem
check_xmodem = refl

check_modbus : crc16_modbus (0x01 ∷ 0x04 ∷ 0x02 ∷ 0xff ∷ 0xff ∷ []) ≡ 0x80b8
unfolding crc16_modbus
check_modbus = refl

-- `QPIGS` travels as 51 50 49 47 53 B7 A9 0D, and `POP02` has the raw checksum E20A.
check_voltronic :
    (crc16_voltronic (0x51 ∷ 0x50 ∷ 0x49 ∷ 0x47 ∷ 0x53 ∷ []) ≡ 0xb7 ∷ 0xa9 ∷ [])
    × (crc16_voltronic (0x50 ∷ 0x4f ∷ 0x50 ∷ 0x30 ∷ 0x32 ∷ []) ≡ 0xe2 ∷ 0x0b ∷ [])
unfolding crc16_voltronic
check_voltronic = (refl, refl)

voltronic-eq-bumped_xmodem_example :
    crc16_voltronic (0x51 ∷ 0x50 ∷ 0x49 ∷ 0x47 ∷ 0x53 ∷ [])
    ≡ map bump (crc16_xmodem_bytes (0x51 ∷ 0x50 ∷ 0x49 ∷ 0x47 ∷ 0x53 ∷ []))
voltronic-eq-bumped_xmodem_example =
    voltronic-eq-bumped_xmodem (0x51 ∷ 0x50 ∷ 0x49 ∷ 0x47 ∷ 0x53 ∷ [])
      (omega arith, (omega arith, (omega arith, (omega arith, (omega arith, tt)))))

-- `\r(ACK` and two bytes.
validate-accepts_example :
    let (ok, body) =
      validate_voltronic_response
        ((0x0d ∷ []) ++ (b'(' ∷ ((0x41 ∷ 0x43 ∷ 0x4b ∷ []) ++ (0x39 ∷ 0x20 ∷ [])))) in
    ((ok ≡ true) ↔ Candidate (0x41 ∷ 0x43 ∷ 0x4b ∷ []) (0x39 ∷ 0x20 ∷ []))
    × (body ≡ 0x41 ∷ 0x43 ∷ 0x4b ∷ [])
validate-accepts_example =
    validate-accepts (0x0d ∷ []) (0x41 ∷ 0x43 ∷ 0x4b ∷ []) (0x39 ∷ 0x20 ∷ [])
      ((λ e. omega arith), tt) (omega arith) refl
