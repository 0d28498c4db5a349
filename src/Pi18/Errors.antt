-- ===== src/Pi18/Errors.antt =====
-- Which PI18 answers the coordinator takes for errors and for NAKs.
use home_assistant_dess_moni.Base.{
  ℕ, ◌≡◌, refl, arith, Bool, true, false, not, ◌&&◌, ◌||◌, String, List, [], ◌∷◌, ◌++◌, Option,
  none, some, length, take, if◌then◌else◌, Bool-cases, inl, inr, eqb, nat_eq, list_eq, string_eq,
  ◌==◌,
}
use home_assistant_dess_moni.Base.Text.{Text, codes, split_at, split_at_from, starts_with}
use home_assistant_dess_moni.Base.Int.{ℤ}
use home_assistant_dess_moni.Base.Float.{Float}
use home_assistant_dess_moni.Base.Dict.{lookup}
use home_assistant_dess_moni.Values.{Value, Section, text}
use home_assistant_dess_moni.Coordinator.Fetch.{
  Coordinator, Pair, is_nak_result, is_error_result, is_rejected, accept_result,
}
use home_assistant_dess_moni.Decode.Tokens.{is_named}
use home_assistant_dess_moni.Pi18.Tables.{fws_warning_fields, flag_fields, di_fields, Scale}
use home_assistant_dess_moni.Pi18.Fields.{padded_to}
use home_assistant_dess_moni.Pi18.Frame.{native_command, strip_pi18_frame}
use home_assistant_dess_moni.Pi18.Status.{decode_gs, gs_section}
use home_assistant_dess_moni.Pi18.Rated.{decode_piri, piri_section}
use home_assistant_dess_moni.Pi18.Warnings.{
  decode_mod, decode_fws, decode_flag, decode_di, flag_each, scale_each,
}
use home_assistant_dess_moni.Pi18.Respond.{
  decode_id, decode_t, decode_vfw, decode_selectable_currents, decode_energy, decode_tokens,
  tokens_of, decode_payload, payload_text, decode_pi18_response,
}

-- A section that the coordinator accepts: not empty, and with neither an error nor a status.
record IsPlain (s : Section) : Type 0 where
  not_error : is_error_result s ≡ false
  not_nak : is_nak_result s ≡ false

if-IsPlain : (b : Bool) (s t : Section) → IsPlain s → IsPlain t → IsPlain (if b then s else t)
if-IsPlain true s t h k = h
if-IsPlain false s t h k = k

pub flag_each-absent :
    (fields : List String) (tokens : List Text) (f : String)
    → is_named f fields ≡ false
    → lookup f (flag_each fields tokens) ≡ none
unfolding flag_each
flag_each-absent [] tokens f h = refl
flag_each-absent (g ∷ fields) [] f h = refl
flag_each-absent (g ∷ fields) (t ∷ tokens) f h = ground (arith, flag_each-absent fields tokens f)

abbrev names : List (String × Scale) → List String
names [] = []
names ((name, scale) ∷ entries) = name ∷ names entries

scale_each-absent :
    (fields : List (String × Scale)) (tokens : List Text) (f : String)
    → is_named f (names fields) ≡ false
    → lookup f (scale_each fields tokens) ≡ none
unfolding scale_each
scale_each-absent [] tokens f h = refl
scale_each-absent (g ∷ fields) [] f h = refl
scale_each-absent ((g, s) ∷ fields) (t ∷ tokens) f h =
    ground (arith, scale_each-absent fields tokens f)

-- `error` and `status` are no keys of this section, which starts with some entry.
plain_lem :
    (key : String) (v : Value) (rest : Section)
    → lookup "error" ((key, v) ∷ rest) ≡ none
    → lookup "status" ((key, v) ∷ rest) ≡ none
    → IsPlain ((key, v) ∷ rest)
unfolding is_error_result is_nak_result
plain_lem key v rest h k = record {
  not_error = ground (arith, h, k);
  not_nak = ground (arith, h, k);
}

gs-IsPlain : (r : ℤ → ℤ → Text) (tokens : List Text) → IsPlain (decode_gs r tokens)
unfolding decode_gs gs_section is_error_result is_nak_result
gs-IsPlain r tokens = record { not_error = refl; not_nak = refl }

piri-IsPlain : (tokens : List Text) → IsPlain (decode_piri tokens)
unfolding decode_piri piri_section is_error_result is_nak_result
piri-IsPlain tokens = record { not_error = refl; not_nak = refl }

fws-IsPlain : (t : Text) (ts : List Text) → IsPlain (decode_fws (t ∷ ts))
unfolding decode_fws
fws-IsPlain t ts =
    let warnings = padded_to (length fws_warning_fields) ts in
    plain_lem "fault_code" _ _ (flag_each-absent fws_warning_fields warnings "error" refl)
      (flag_each-absent fws_warning_fields warnings "status" refl)

flag-IsPlain : (t : Text) (ts : List Text) → IsPlain (decode_flag (t ∷ ts))
unfolding decode_flag flag_each padded_to
flag-IsPlain t ts =
    let tokens = padded_to (length flag_fields) (t ∷ ts) in
    plain_lem "flag_silence_buzzer" _ _ (flag_each-absent flag_fields tokens "error" refl)
      (flag_each-absent flag_fields tokens "status" refl)

di-IsPlain : (t : Text) (ts : List Text) → IsPlain (decode_di (t ∷ ts))
unfolding decode_di scale_each padded_to
di-IsPlain t ts =
    let tokens = padded_to (length di_fields) (t ∷ ts) in
    plain_lem "default_ac_output_voltage" _ _ (scale_each-absent di_fields tokens "error" refl)
      (scale_each-absent di_fields tokens "status" refl)

energy-IsPlain : (native payload : Text) → IsPlain (decode_energy native payload)
unfolding decode_energy
energy-IsPlain native payload = if-IsPlain (native == codes "ET") _ _ (plain_lem _ _ _ refl refl) (
    if-IsPlain (starts_with native (codes "EY")) _ _ (plain_lem _ _ _ refl refl) (
      if-IsPlain (starts_with native (codes "EM")) _ _ (plain_lem _ _ _ refl refl) (
        if-IsPlain (starts_with native (codes "ED")) _ _ (plain_lem _ _ _ refl refl)
          (plain_lem _ _ _ refl refl))))

tokens-IsPlain :
    (r : ℤ → ℤ → Text) (native t : Text) (ts : List Text)
    → IsPlain (decode_tokens r native (t ∷ ts))
unfolding decode_tokens decode_vfw decode_selectable_currents
tokens-IsPlain r native t ts = if-IsPlain (native == codes "GS") _ _ (gs-IsPlain r (t ∷ ts)) (
    if-IsPlain (native == codes "PIRI") _ _ (piri-IsPlain (t ∷ ts)) (
      if-IsPlain (native == codes "FWS") _ _ (fws-IsPlain t ts) (
        if-IsPlain (native == codes "FLAG") _ _ (flag-IsPlain t ts) (
          if-IsPlain (native == codes "DI") _ _ (di-IsPlain t ts) (
            if-IsPlain (native == codes "VFW") _ _ (plain_lem _ _ _ refl refl) (
              if-IsPlain (native == codes "MCHGCR") _ _ (plain_lem _ _ _ refl refl) (
                if-IsPlain (native == codes "MUCHGCR") _ _ (plain_lem _ _ _ refl refl)
                  (plain_lem _ _ _ refl refl))))))))

split_some : (word s : Text) → (t : Text) × (ts : List Text) × (split_at_from b',' word s ≡ t ∷ ts)
unfolding split_at_from
split_some word [] = (word, [], refl)
split_some word (c ∷ s) = elim (Bool-cases (eqb c b',')) [
  | inl e ↦ (word, split_at_from b',' [] s, rw (split_at_from, e) refl)
  | inr e ↦ rw (split_at_from, e) (split_some (word ++ (c ∷ [])) s)
]

all-IsPlain :
    (r : ℤ → ℤ → Text) (native payload : Text)
    → IsPlain (decode_tokens r native (tokens_of payload))
unfolding tokens_of split_at
all-IsPlain r native payload =
    let (t, ts, e) = split_some [] payload in rw e (tokens-IsPlain r native _ _)

payload-IsPlain :
    (r : ℤ → ℤ → Text) (native payload : Text) → IsPlain (decode_payload r native payload)
unfolding decode_payload decode_mod decode_id decode_t
payload-IsPlain r native payload =
    if-IsPlain (native == codes "MOD") _ _ (plain_lem _ _ _ refl refl) (
      if-IsPlain (native == codes "PI") _ _ (plain_lem _ _ _ refl refl) (
        if-IsPlain (native == codes "ID") _ _ (plain_lem _ _ _ refl refl) (
          if-IsPlain (native == codes "T") _ _ (plain_lem _ _ _ refl refl)
            (if-IsPlain _ _ _ (energy-IsPlain native payload) (all-IsPlain r native payload)))))

-- An answer that has nothing to decode: none, `null`, or a frame with a blank payload.
abbrev pub is_void : List ℕ → Bool
is_void raw =
    (raw == [] || raw == codes "null")
    || (not (take 2 raw == codes "^1") && payload_text (strip_pi18_frame raw) == [])

classified :
    (none_sent ack nak blank : Bool) (s : Section)
    → IsPlain s
    → (none_sent ≡ true → nak ≡ false)
    → (ack ≡ true → nak ≡ false)
    → let section =
        if none_sent
        then ("error", text (codes "null response received. Command not accepted.")) ∷ []
        else if ack
        then ("status", text (codes "ACK")) ∷ []
        else if nak
        then ("status", text (codes "NAK")) ∷ []
        else if blank
        then ("error", text (codes "empty PI18 payload")) ∷ []
        else s in
      (is_error_result section ≡ (nak || (none_sent || (not ack && blank))))
      × (is_nak_result section ≡ nak)
unfolding is_error_result is_nak_result
classified true ack nak blank s p h k = rw (h refl) (refl, refl)
classified false true nak blank s p h k = rw (k refl) (refl, refl)
classified false false true blank s p h k = (refl, refl)
classified false false false true s p h k = (refl, refl)
classified false false false false s p h k = (p.not_error, p.not_nak)

none_sent-nak :
    (raw : List ℕ) → (raw == [] || raw == codes "null") ≡ true → (take 2 raw == codes "^0") ≡ false
none_sent-nak [] h = refl
none_sent-nak (c ∷ []) h = ground arith
none_sent-nak (c ∷ d ∷ raw) h = ground arith

ack-nak : (raw : List ℕ) → (take 2 raw == codes "^1") ≡ true → (take 2 raw == codes "^0") ≡ false
ack-nak [] h = refl
ack-nak (c ∷ []) h = ground arith
ack-nak (c ∷ d ∷ raw) h = ground arith

if_some :
    (b : Bool) (section : Section) (s t : Coordinator)
    → (if◌then◌else◌ {A = Option Section × Coordinator} b (none, s) (some section, t)).0
      ≡ (if b then none else some section)
if_some true section s t = refl
if_some false section s t = refl

-- What the coordinator accepts, by what it takes for a NAK and for an error.
accepted_by :
    (F : Float) (float : Value → Option F.Real) (s : Coordinator) (pair : Pair) (section : Section)
    (refused void : Bool)
    → is_error_result section ≡ (refused || void)
    → is_nak_result section ≡ refused
    → (accept_result F float s pair section).0
      ≡ (if (refused || void) || is_rejected F float pair section then none else some section)
unfolding accept_result
accepted_by F float s pair section true void h k = rw (accept_result, k) refl
accepted_by F float s pair section false true h k = rw (accept_result, k, h) refl
accepted_by F float s pair section false false h k =
    rw (accept_result, k, h) (if_some (is_rejected F float pair section) section _ _)

-- Whatever the command, the coordinator takes an answer for an error exactly where it is `^0` or has
-- nothing to decode, and for a NAK exactly where it is `^0`. It accepts the section of the answer
-- exactly where neither holds and the section is not an implausible one for QPIGS.
pub answer-error :
    (F : Float) (float : Value → Option F.Real) (s : Coordinator) (pair : Pair) (r : ℤ → ℤ → Text)
    (command : Text) (raw : List ℕ)
    → let section = decode_pi18_response r command raw in
      let bad = take 2 raw == codes "^0" || is_void raw in
      (is_error_result section ≡ bad)
      × (is_nak_result section ≡ (take 2 raw == codes "^0"))
      × ((accept_result F float s pair section).0
          ≡ (if bad || is_rejected F float pair section then none else some section))
unfolding decode_pi18_response
answer-error F float s pair r command raw =
    let payload = payload_text (strip_pi18_frame raw) in
    let (error, nak) =
      classified _ _ _ (payload == []) _ (payload-IsPlain r (native_command command) payload)
        (none_sent-nak raw) (ack-nak raw) in
    (error, nak, accepted_by F float s pair (decode_pi18_response r command raw) _ _ error nak)
