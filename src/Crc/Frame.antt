-- ===== src/Crc/Frame.antt =====
-- `build_pi30_frame` and the validators of response frames. Frames come without their final CR.
use home_assistant_dess_moni.Base.{
  ℕ, ◌-◌, Bool, false, true, ◌||◌, List, [], ◌∷◌, ◌++◌, ltb, eqb, if◌then◌else◌, length, take, drop,
  Option, none, some, ◌==◌, nat_eq, list_eq,
}
use home_assistant_dess_moni.Crc.{crc16_xmodem_bytes, crc16_voltronic}

-- The part of a frame behind its first `(`: `raw[raw.find(b"(") + 1:]`.
unfoldable pub after_paren : List ℕ → Option (List ℕ)
after_paren [] = none
after_paren (c ∷ rest) = if eqb c b'(' then some rest else after_paren rest

-- `in b" \t\r\n\x00"`
unfoldable pub is_junk : ℕ → Bool
is_junk c = eqb c 0x20 || eqb c 0x09 || eqb c 0x0d || eqb c 0x0a || eqb c 0x00

unfoldable pub lstrip_junk : List ℕ → List ℕ
unfolding is_junk
lstrip_junk [] = []
lstrip_junk (c ∷ rest) = if is_junk c then lstrip_junk rest else c ∷ rest

unfoldable pub frame_body : List ℕ → List ℕ
unfolding after_paren lstrip_junk
frame_body raw = elim (after_paren raw) [ some body ↦ body | none ↦ lstrip_junk raw ]

-- One round of the loop over the checksum scopes.
unfoldable pub scope_matches : List ℕ → List ℕ → Bool
scope_matches received scope =
    received == crc16_xmodem_bytes scope || received == crc16_voltronic scope

unfoldable pub any_scope : List ℕ → List ℕ → Bool
any_scope received payload =
    scope_matches received payload
    || scope_matches received (b'(' ∷ payload)
    || scope_matches received (payload ++ 0x0d ∷ [])

-- `(ok, payload)`.
unfoldable pub validate_voltronic_response : List ℕ → Bool × List ℕ
validate_voltronic_response raw =
    let body = frame_body raw in
    let payload = take (length body - 2) body in
    let received = drop (length body - 2) body in
    if ltb (length body) 3
    then (false, body)
    else if any_scope received payload
    then (true, payload)
    else (false, payload)

unfoldable pub validate_pi18_response : List ℕ → Bool × List ℕ
validate_pi18_response raw =
    let payload = take (length raw - 2) raw in
    let received = drop (length raw - 2) raw in
    if ltb (length raw) 3 then (false, raw) else (received == crc16_xmodem_bytes payload, payload)

-- The command is given by its ASCII codes.
unfoldable pub build_pi30_frame : List ℕ → List ℕ
build_pi30_frame body = body ++ crc16_voltronic body ++ 0x0d ∷ []
