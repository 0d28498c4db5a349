-- ===== src/Modbus/Device.antt =====
-- A device that serves the writes of one register, described independently of the client: the frames of
-- the functions 0x06 and 0x10 of Modbus RTU, each of which a device may lack.
use home_assistant_dess_moni.Base.{
  ℕ, ◌+◌, ◌*◌, ◌/◌, ◌%◌, ◌^◌, ◌<◌, ◌≡◌, refl, ap, ap₂, ◌∙◌, arith, Bool, true, false, not, ◌&&◌,
  ◌||◌, List, [], ◌∷◌, ◌++◌, Option, none, some, eqb, if◌then◌else◌,
}
use home_assistant_dess_moni.Crc.{crc16_modbus}
use home_assistant_dess_moni.Modbus.Framing.{
  with_crc, word_bytes, is_exception, incomplete_read, WriteAnswer, write_ok, write_error,
}
use home_assistant_dess_moni.Modbus.Roundtrip.{crc-read, crc16_modbus-lt}
use home_assistant_dess_moni.Modbus.Write.{
  written, not_written, write_modbus_single_register, send_write, write_request, write_answer,
  answered, first_or_fallback,
}

pub record Device : Type 0 where
  pub unit : ℕ
  pub has_single : Bool
  pub has_multiple : Bool
  pub contents : ℕ → ℕ

abbrev pub store : Device → ℕ → ℕ → Device
store d address value = record d { contents = λ a. if eqb a address then value else d.contents a }

-- The two bytes of the checksum behind a body, low byte first.
abbrev is_checked : List ℕ → ℕ → ℕ → Bool
is_checked body lo hi = eqb (hi * 2 ^ 8 + lo) (crc16_modbus body)

abbrev refusal : ℕ → ℕ → List ℕ
refusal unit func = with_crc (unit ∷ (func + 0x80) ∷ 1 ∷ [])

-- A request for another unit, or one that is damaged, has no answer.
unfoldable pub serve : Device → List ℕ → Option (List ℕ) × Device
serve d (u ∷ f ∷ ah ∷ al ∷ vh ∷ vl ∷ lo ∷ hi ∷ []) =
    if not (eqb u d.unit && is_checked (u ∷ f ∷ ah ∷ al ∷ vh ∷ vl ∷ []) lo hi)
    then (none, d)
    else if eqb f 0x06 && d.has_single
    then (
      some (with_crc (u ∷ f ∷ ah ∷ al ∷ vh ∷ vl ∷ [])),
      store d (ah * 2 ^ 8 + al) (vh * 2 ^ 8 + vl),
    )
    else (some (refusal u f), d)
serve d (u ∷ f ∷ ah ∷ al ∷ nh ∷ nl ∷ n ∷ vh ∷ vl ∷ lo ∷ hi ∷ []) =
    if not (eqb u d.unit && is_checked (u ∷ f ∷ ah ∷ al ∷ nh ∷ nl ∷ n ∷ vh ∷ vl ∷ []) lo hi)
    then (none, d)
    else if eqb f 0x10 && eqb (nh * 2 ^ 8 + nl) 1 && eqb n 2 && d.has_multiple
    then (
      some (with_crc (u ∷ f ∷ ah ∷ al ∷ nh ∷ nl ∷ [])),
      store d (ah * 2 ^ 8 + al) (vh * 2 ^ 8 + vl),
    )
    else (some (refusal u f), d)
serve d request = (none, d)

is_checked-crc :
    (body : List ℕ)
    → let crc = crc16_modbus body in is_checked body (crc % 2 ^ 8) ((crc / 2 ^ 8) % 2 ^ 8) ≡ true
is_checked-crc body = ground (arith, crc16_modbus-lt body)

write_answer-six :
    (unit func a b c d : ℕ)
    → is_exception func ≡ false
    → write_answer unit func (some (with_crc (unit ∷ func ∷ a ∷ b ∷ c ∷ d ∷ []))) ≡ write_ok func
unfolding write_answer with_crc
write_answer-six unit func a b c d h = ground (arith, crc-read (unit ∷ func ∷ a ∷ b ∷ c ∷ d ∷ []))

write_answer-refusal :
    (unit func : ℕ)
    → write_answer unit func (some (refusal unit func)) ≡ write_error incomplete_read
unfolding write_answer with_crc
write_answer-refusal unit func = refl

joined : (x : ℕ) → x < 2 ^ 16 → (x / 2 ^ 8) % 2 ^ 8 * 2 ^ 8 + x % 2 ^ 8 ≡ x
joined x h = omega arith

valid_lem :
    (u : ℕ) (body : List ℕ)
    → let crc = crc16_modbus body in
      (eqb u u && is_checked body (crc % 2 ^ 8) ((crc / 2 ^ 8) % 2 ^ 8)) ≡ true
valid_lem u body = ground (arith, is_checked-crc body)

-- One attempt: the answer, and the registers after it.
abbrev attempted : Bool → ℕ → Device → Device → WriteAnswer × Device
attempted served func after d =
    if served then (write_ok func, after) else (write_error incomplete_read, d)

answered_if :
    (served : Bool) (unit func a b c e : ℕ) (after d : Device)
    → is_exception func ≡ false
    → answered serve unit func (
        if served
        then (some (with_crc (unit ∷ func ∷ a ∷ b ∷ c ∷ e ∷ [])), after)
        else (some (refusal unit func), d))
      ≡ attempted served func after d
unfolding write_answer with_crc
answered_if true unit func a b c e after d h =
    ap (λ (w : WriteAnswer). (w, after)) (write_answer-six unit func a b c e h)
answered_if false unit func a b c e after d h = refl

serve-single :
    (d : Device) (ah al vh vl : ℕ)
    → serve d (with_crc (d.unit ∷ 0x06 ∷ ah ∷ al ∷ vh ∷ vl ∷ [])) ≡ (
        if d.has_single
        then (
          some (with_crc (d.unit ∷ 0x06 ∷ ah ∷ al ∷ vh ∷ vl ∷ [])),
          store d (ah * 2 ^ 8 + al) (vh * 2 ^ 8 + vl),
        )
        else (some (refusal d.unit 0x06), d))
unfolding serve with_crc
serve-single d ah al vh vl = rw (valid_lem d.unit (d.unit ∷ 0x06 ∷ ah ∷ al ∷ vh ∷ vl ∷ [])) refl

serve-multiple :
    (d : Device) (ah al vh vl : ℕ)
    → serve d (with_crc (d.unit ∷ 0x10 ∷ ah ∷ al ∷ 0 ∷ 1 ∷ 2 ∷ vh ∷ vl ∷ [])) ≡ (
        if d.has_multiple
        then (
          some (with_crc (d.unit ∷ 0x10 ∷ ah ∷ al ∷ 0 ∷ 1 ∷ [])),
          store d (ah * 2 ^ 8 + al) (vh * 2 ^ 8 + vl),
        )
        else (some (refusal d.unit 0x10), d))
unfolding serve with_crc
serve-multiple d ah al vh vl =
    rw (valid_lem d.unit (d.unit ∷ 0x10 ∷ ah ∷ al ∷ 0 ∷ 1 ∷ 2 ∷ vh ∷ vl ∷ [])) refl

store_joined :
    (d : Device) (address value : ℕ)
    → address < 2 ^ 16
    → value < 2 ^ 16
    → store d
        ((address / 2 ^ 8) % 2 ^ 8 * 2 ^ 8 + address % 2 ^ 8)
        ((value / 2 ^ 8) % 2 ^ 8 * 2 ^ 8 + value % 2 ^ 8)
      ≡ store d address value
store_joined d address value h k = ap₂ (store d) (joined address h) (joined value k)

abbrev InRange : Device → ℕ → ℕ → Type 0
InRange d address value = (d.unit < 2 ^ 8) × (address < 2 ^ 16) × (value < 2 ^ 16)

unit_small : (d : Device) → d.unit < 2 ^ 8 → d.unit % 2 ^ 8 ≡ d.unit
unit_small d h = omega arith

send_write-single :
    (d : Device) (address value : ℕ)
    → InRange d address value
    → send_write serve 0x06 address value d.unit d
      ≡ attempted d.has_single 0x06 (store d address value) d
unfolding send_write write_request
send_write-single d address value (u, a, v) =
    ap
      (λ (w : ℕ).
        answered serve d.unit 0x06
          (serve d (with_crc (w ∷ 0x06 ∷ (word_bytes address ++ word_bytes value)))))
      (unit_small d u)
    ∙ ap (answered serve d.unit 0x06) (serve-single d _ _ _ _)
    ∙ answered_if d.has_single d.unit 0x06 _ _ _ _ _ d refl
    ∙ ap (λ (after : Device). attempted d.has_single 0x06 after d)
        (store_joined d address value a v)

send_write-multiple :
    (d : Device) (address value : ℕ)
    → InRange d address value
    → send_write serve 0x10 address value d.unit d
      ≡ attempted d.has_multiple 0x10 (store d address value) d
unfolding send_write write_request
send_write-multiple d address value (u, a, v) =
    ap
      (λ (w : ℕ).
        answered serve d.unit 0x10
          (serve d (with_crc (w ∷ 0x10 ∷ (word_bytes address ++ 0 ∷ 1 ∷ 2 ∷ word_bytes value)))))
      (unit_small d u)
    ∙ ap (answered serve d.unit 0x10) (serve-multiple d _ _ _ _)
    ∙ answered_if d.has_multiple d.unit 0x10 _ _ _ _ _ d refl
    ∙ ap (λ (after : Device). attempted d.has_multiple 0x10 after d)
        (store_joined d address value a v)

fallback_lem :
    (single multiple : Bool) (after d : Device) (again : Device → WriteAnswer × Device)
    → again d ≡ attempted multiple 0x10 after d
    → first_or_fallback serve (attempted single 0x06 after d) again ≡ (
      if single
          then written 0x06
          else if multiple
          then written 0x10
          else not_written incomplete_read incomplete_read,
      if single || multiple then after else d,
    )
fallback_lem true multiple after d again h = refl
fallback_lem false true after d again h = rw h refl
fallback_lem false false after d again h = rw h refl

-- For a unit below 2 ^ 8, and an address and a value below 2 ^ 16: where a device of that unit serves
-- one of the two functions, it has the value in the register at the address afterwards and its others
-- as before, and the write is reported as done, with 0x06 where the device serves that and else with
-- 0x10. Where it serves neither, it is left as it was, and the write is reported as failed.
pub write-serve :
    (d : Device) (address value : ℕ)
    → d.unit < 2 ^ 8
    → address < 2 ^ 16
    → value < 2 ^ 16
    → write_modbus_single_register serve address value d.unit d ≡ (
      if d.has_single
          then written 0x06
          else if d.has_multiple
          then written 0x10
          else not_written incomplete_read incomplete_read,
      if d.has_single || d.has_multiple then store d address value else d,
    )
unfolding write_modbus_single_register
write-serve d address value u a v =
    ap
      (λ (first : WriteAnswer × Device).
        first_or_fallback serve first (send_write serve 0x10 address value d.unit))
      (send_write-single d address value (u, a, v))
    ∙ fallback_lem d.has_single d.has_multiple (store d address value) d
        (send_write serve 0x10 address value d.unit) (send_write-multiple d address value (u, a, v))
