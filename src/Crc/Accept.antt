-- ===== src/Crc/Accept.antt =====
-- What the checksums guarantee: their range, and which frames the validators accept.
use home_assistant_dess_moni.Base.{
  ℕ, ◌-◌, ◌%◌, ◌/◌, ◌^◌, ◌<◌, ◌≡◌, ◌≢◌, refl, arith, true, false, List, [], ◌∷◌, ◌++◌, length, take,
  drop, length-append, take-append, drop-append, ◌↔◌, ◌⊎◌, Bool-cases, inl, inr, All, ◌==◌, list_eq,
  nat_eq, list_beq_iff, some,
}
use home_assistant_dess_moni.Crc.{
  crc16_xmodem_bytes, crc16_voltronic, is_control, bump, voltronic_from,
}
use home_assistant_dess_moni.Crc.Frame.{
  after_paren, frame_body, any_scope, scope_matches, validate_voltronic_response,
  validate_pi18_response,
}

-- The bytes that a firmware may have summed.
pub data Scope (payload : List ℕ) : List ℕ → Type 0 where
  bare : Scope payload payload
  with_paren : Scope payload (b'(' ∷ payload)
  with_cr : Scope payload (payload ++ 0x0d ∷ [])

bump-free : (c : ℕ) → is_control (bump c) ≡ false
unfolding bump
bump-free c = ground arith

bump-lt : (c : ℕ) → c < 256 → bump c < 256
unfolding bump
bump-lt c h = ground arith

-- The checksum of a PI30 frame has two bytes, each below 256, and neither is a frame control
-- byte `(`, CR or LF.
pub crc16_voltronic-free :
    (bytes : List ℕ)
    → (length (crc16_voltronic bytes) ≡ 2)
      × All (λ c. (c < 256) × (is_control c ≡ false)) (crc16_voltronic bytes)
unfolding crc16_voltronic
crc16_voltronic-free bytes =
    let crc = voltronic_from 0 bytes in
    let hi = (crc / 2 ^ 8) % 2 ^ 8 in
    let lo = crc % 2 ^ 8 in
    (
      refl,
      ((bump-lt hi (omega arith), bump-free hi), ((bump-lt lo (omega arith), bump-free lo), tt)),
    )

split_at_two :
    (payload crc : List ℕ)
    → length crc ≡ 2
    → (take (length (payload ++ crc) - 2) (payload ++ crc) ≡ payload)
      × (drop (length (payload ++ crc) - 2) (payload ++ crc) ≡ crc)
split_at_two payload crc h =
    let e : length (payload ++ crc) - 2 ≡ length payload =
      omega (arith, length-append payload crc) in
    (rw e (take-append payload crc), rw e (drop-append payload crc))

after_paren-skip :
    (junk rest : List ℕ)
    → All (λ c. c ≢ b'(') junk
    → after_paren (junk ++ (b'(' ∷ rest)) ≡ some rest
unfolding after_paren
after_paren-skip [] rest h = refl
after_paren-skip (c ∷ junk) rest h = ground (arith, after_paren-skip junk rest h.1)

frame_body-skip :
    (junk rest : List ℕ) → All (λ c. c ≢ b'(') junk → frame_body (junk ++ (b'(' ∷ rest)) ≡ rest
unfolding frame_body
frame_body-skip junk rest h = rw (frame_body, after_paren-skip junk rest h)

validate-body :
    (raw payload crc : List ℕ)
    → frame_body raw ≡ payload ++ crc
    → 0 < length payload
    → length crc ≡ 2
    → validate_voltronic_response raw ≡ (any_scope crc payload, payload)
unfolding validate_voltronic_response
validate-body raw payload crc e p c =
    rw e (ground (arith, split_at_two payload crc c, length-append payload crc))

-- The values that `received` may have for a payload: two forms over three scopes.
pub data Candidate (payload received : List ℕ) : Type 0 where
  over :
      (scope : List ℕ)
      → Scope payload scope
      → received ≡ crc16_xmodem_bytes scope
      → Candidate payload received
  bumped :
      (scope : List ℕ)
      → Scope payload scope
      → received ≡ crc16_voltronic scope
      → Candidate payload received

scope_matches-Candidate :
    (payload received scope : List ℕ)
    → Scope payload scope
    → scope_matches received scope ≡ true
    → Candidate payload received
unfolding scope_matches
scope_matches-Candidate payload received scope s h =
    elim (Bool-cases (received == crc16_xmodem_bytes scope)) [
      | inl e ↦ over scope s ((list_beq_iff received _).0 e)
      | inr e ↦ bumped scope s ((list_beq_iff received _).0 (ground arith))
    ]

Candidate-scope_matches :
    (payload received scope : List ℕ)
    → (received ≡ crc16_xmodem_bytes scope) ⊎ (received ≡ crc16_voltronic scope)
    → scope_matches received scope ≡ true
unfolding scope_matches
Candidate-scope_matches payload received scope h = ground (
  arith,
  list_beq_iff received (crc16_xmodem_bytes scope),
  list_beq_iff received (crc16_voltronic scope),
)

any_scope-Candidate :
    (payload received : List ℕ) → any_scope received payload ≡ true → Candidate payload received
unfolding any_scope
any_scope-Candidate payload received h = elim (Bool-cases (scope_matches received payload)) [
  | inl e ↦ scope_matches-Candidate payload received payload bare e
  | inr e ↦ elim (Bool-cases (scope_matches received (b'(' ∷ payload))) [
    | inl f ↦ scope_matches-Candidate payload received (b'(' ∷ payload) with_paren f
    | inr f ↦ scope_matches-Candidate payload received (payload ++ 0x0d ∷ []) with_cr (ground arith)
  ]
]

in_any_scope :
    (payload received scope : List ℕ)
    → Scope payload scope
    → scope_matches received scope ≡ true
    → any_scope received payload ≡ true
unfolding any_scope
in_any_scope payload received _ bare h = ground arith
in_any_scope payload received _ with_paren h = ground arith
in_any_scope payload received _ with_cr h = ground arith

Candidate-any_scope :
    (payload received : List ℕ) → Candidate payload received → any_scope received payload ≡ true
Candidate-any_scope payload received (over scope s e) =
    in_any_scope payload received scope s (Candidate-scope_matches payload received scope (inl e))
Candidate-any_scope payload received (bumped scope s e) =
    in_any_scope payload received scope s (Candidate-scope_matches payload received scope (inr e))

-- A frame `<junk>(<payload><crc>`, with no `(` in the junk, a payload that is not empty and two
-- bytes of checksum, gives back its payload, and is accepted exactly when the two bytes are a
-- checksum, bumped or not, over one of the three scopes.
pub validate-accepts :
    (junk payload crc : List ℕ)
    → All (λ c. c ≢ b'(') junk
    → 0 < length payload
    → length crc ≡ 2
    → let (ok, body) = validate_voltronic_response (junk ++ (b'(' ∷ (payload ++ crc))) in
      ((ok ≡ true) ↔ Candidate payload crc) × (body ≡ payload)
validate-accepts junk payload crc h p c =
    rw
      (validate-body (junk ++ (b'(' ∷ (payload ++ crc))) payload crc
        (frame_body-skip junk (payload ++ crc) h) p c)
      ((any_scope-Candidate payload crc, Candidate-any_scope payload crc), refl)

-- A PI18 frame with a payload that is not empty gives back what stands before its last two
-- bytes, and is accepted exactly when these are the checksum of that.
pub validate_pi18-accepts :
    (payload crc : List ℕ)
    → 0 < length payload
    → length crc ≡ 2
    → let (ok, body) = validate_pi18_response (payload ++ crc) in
      ((ok ≡ true) ↔ (crc ≡ crc16_xmodem_bytes payload)) × (body ≡ payload)
unfolding validate_pi18_response
validate_pi18-accepts payload crc p c = ground (
  arith,
  split_at_two payload crc c,
  length-append payload crc,
  list_beq_iff crc (crc16_xmodem_bytes payload),
)
