-- ===== src/Modbus/Stream.antt =====
-- `read_modbus_block`: the reader of the TCP path, which takes the answer from the stream piece by
-- piece. What the connection delivers until it ends or times out is a list of bytes.
use home_assistant_dess_moni.Base.{
  ℕ, ◌+◌, ◌-◌, ◌*◌, ◌%◌, ◌^◌, ◌≤◌, ◌≡◌, refl, ap, ◌∙◌, arith, bit_or, min, not, List, [], ◌∷◌,
  length, take, get_or, ltb, eqb, if◌then◌else◌, length-take, Bool-cases, inl, inr, ◌↔◌, zero, suc,
}
use home_assistant_dess_moni.Crc.{crc16_modbus}
use home_assistant_dess_moni.Modbus.Framing.{
  Outcome, ok, failed, unexpected_unit, device_exception, crc_mismatch, odd_byte_count,
  incomplete_read, registers, or_index_error, is_exception, parse_read_holding_response,
  or_index_error,
}

-- What is left of the stream behind the byte count.
unfoldable pub read_data : ℕ → ℕ → ℕ → ℕ → List ℕ → Outcome (List ℕ)
read_data count uid func byte_count stream =
    let data_plus_crc = take (byte_count + 2) stream in
    let n = length data_plus_crc in
    let data_bytes = take (n - 2) data_plus_crc in
    let recv_crc =
      bit_or (get_or data_plus_crc (n - 2) 0) (get_or data_plus_crc (n - 1) 0 * 2 ^ 8) in
    if ltb (length stream) (byte_count + 2)
    then failed incomplete_read
    else if not (eqb recv_crc (crc16_modbus (uid ∷ func ∷ byte_count ∷ data_bytes)))
    then failed crc_mismatch
    else if not (eqb (byte_count % 2) 0)
    then failed odd_byte_count
    else or_index_error (registers (min byte_count (count * 2)) data_bytes)

unfoldable pub read_modbus_block : ℕ → ℕ → List ℕ → Outcome (List ℕ)
unfolding read_data
read_modbus_block count unit_id (uid ∷ func ∷ stream) =
    if not (eqb uid unit_id)
    then failed (unexpected_unit uid)
    else if is_exception func
    then (if ltb (length stream) 3
        then failed incomplete_read
        else failed (device_exception (get_or stream 0 0)))
    else elim stream as (λ _. Outcome (List ℕ)) [
      | [] ↦ failed incomplete_read
      | byte_count ∷ rest ↦ read_data count uid func byte_count rest
    ]
read_modbus_block count unit_id (uid ∷ []) = failed incomplete_read
read_modbus_block count unit_id [] = failed incomplete_read

take-take : (m n : ℕ) (xs : List ℕ) → m ≤ n → take m (take n xs) ≡ take m xs
take-take zero n xs h = refl
take-take (suc m) zero xs h = absurd (omega arith)
take-take (suc m) (suc n) [] h = refl
take-take (suc m) (suc n) (x ∷ xs) h = ap (λ (t : List ℕ). x ∷ t) (take-take m n xs (omega arith))

get_or-take : (n : ℕ) (xs : List ℕ) (i d : ℕ) → suc i ≤ n → get_or (take n xs) i d ≡ get_or xs i d
get_or-take zero xs i d h = absurd (omega arith)
get_or-take (suc n) [] i d h = refl
get_or-take (suc n) (x ∷ xs) zero d h = refl
get_or-take (suc n) (x ∷ xs) (suc i) d h = get_or-take n xs i d (omega arith)

-- The stream reader and the parser of whole frames see the same parts of the answer.
same_parts :
    (byte_count : ℕ) (rest : List ℕ)
    → byte_count + 2 ≤ length rest
    → let data_plus_crc = take (byte_count + 2) rest in
      let n = length data_plus_crc in
      (take (n - 2) data_plus_crc ≡ take byte_count rest)
      × (get_or data_plus_crc (n - 2) 0 ≡ get_or rest byte_count 0)
      × (get_or data_plus_crc (n - 1) 0 ≡ get_or rest (byte_count + 1) 0)
same_parts byte_count rest h =
    let part = take (byte_count + 2) rest in
    let e : length part ≡ byte_count + 2 = omega (arith, length-take (byte_count + 2) rest) in
    (
      ap (λ (n : ℕ). take n part) {y = byte_count} (omega arith)
          ∙ take-take byte_count (byte_count + 2) rest (omega arith),
      ap (λ (n : ℕ). get_or part n 0) {y = byte_count} (omega arith)
          ∙ get_or-take (byte_count + 2) rest byte_count 0 (omega arith),
      ap (λ (n : ℕ). get_or part n 0) {y = byte_count + 1} (omega arith)
          ∙ get_or-take (byte_count + 2) rest (byte_count + 1) 0 (omega arith),
    )

-- The TCP reader returns registers exactly where the parser of whole frames does and the byte count is
-- even, and then the same ones.
pub block-iff-parse :
    (stream regs : List ℕ) (count unit_id : ℕ)
    → (read_modbus_block count unit_id stream ≡ ok regs)
      ↔ ((parse_read_holding_response stream count unit_id ≡ ok regs) × (get_or stream 2 0 % 2 ≡ 0))
unfolding read_modbus_block parse_read_holding_response read_data
block-iff-parse (uid ∷ func ∷ byte_count ∷ rest) regs count unit_id =
    elim (Bool-cases (ltb (length rest) (byte_count + 2))) [
      | inl e ↦ (λ h. ground arith, λ h. ground arith)
      | inr e ↦ (
        λ h. ground (arith, same_parts byte_count rest),
        λ h. ground (arith, same_parts byte_count rest),
      )
    ]
block-iff-parse (uid ∷ func ∷ []) regs count unit_id = (λ h. ground arith, λ h. ground arith)
block-iff-parse (uid ∷ []) regs count unit_id = (λ h. ground arith, λ h. ground arith)
block-iff-parse [] regs count unit_id = (λ h. ground arith, λ h. ground arith)
