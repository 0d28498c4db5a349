-- ===== src/Sensors/Agreement.antt =====
-- The summary of faults and the sensor of all warnings, on an answer to QPIWS.
use Prim.Native.String.{String}
use home_assistant_dess_moni.Base.{
  ℕ, zero, suc, ◌≡◌, refl, sym, ap, ◌∙◌, arith, Bool, true, false, not, ◌&&◌, ◌||◌, List, [], ◌∷◌,
  Option, none, some, eqb, length, keep_if, string_eq, ◌==◌, list_eq, nat_eq,
}
use home_assistant_dess_moni.Base.Bools.{same, eq_of_same, and_left, and_right, eq_false}
use home_assistant_dess_moni.Base.Text.{Text, codes}
use home_assistant_dess_moni.Base.Dict.{lookup}
use home_assistant_dess_moni.Values.{Value, Section, flag}
use home_assistant_dess_moni.Decode.Tokens.{is_named, all_distinct, flags-absent}
use home_assistant_dess_moni.Decode.Bits.{is_bit}
use home_assistant_dess_moni.Decode.Fields.{qpiws_fields}
use home_assistant_dess_moni.Decode.Voltronic.{flags, decode_qpiws}
use home_assistant_dess_moni.Agent.Split.{has_prefix}
use home_assistant_dess_moni.Sensors.Binary.{
  merged, append_string, is_truthy, any_flag, any_warning,
}
use home_assistant_dess_moni.Sensors.Summary.{
  warning_severity_order, flag_set, first_active, add_key, catalogued, uncatalogued, active_keys,
  summary_of, fault_summary,
}

abbrev Order : Type 0
Order = List (String × String)

abbrev any_set : Order → Section → Bool
any_set [] s = false
any_set ((key, display) ∷ order) s = flag_set s key || any_set order s

-- The flags under their own names only.
abbrev any_bare : Order → Section → Bool
any_bare [] s = false
any_bare ((key, display) ∷ order) s = is_truthy (lookup key s) || any_bare order s

abbrev is_listed : String → Order → Bool
is_listed f [] = false
is_listed f ((key, display) ∷ order) = f == key || is_listed f order

abbrev is_reserved : String → Bool
is_reserved key = has_prefix "_reserved_" key

-- Each field is in the table or reserved.
abbrev are_listed : (String → Bool) → Order → List String → Bool
are_listed reserved order [] = true
are_listed reserved order (f ∷ fields) =
    same (is_listed f order) (not (reserved f)) && are_listed reserved order fields

-- None has the prefix of PI18.
abbrev are_bare : List String → Bool
are_bare [] = true
are_bare (f ∷ fields) = not (has_prefix "warn_" f) && are_bare fields

abbrev no_warn : Order → List String → Bool
no_warn [] fields = true
no_warn ((key, display) ∷ order) fields =
    not (is_named (append_string "warn_" key) fields) && no_warn order fields

any_bare-cons :
    (order : Order) (f : String) (v : Value) (s : Section)
    → lookup f s ≡ none
    → any_bare order ((f, v) ∷ s) ≡ (is_listed f order && is_truthy (some v) || any_bare order s)
any_bare-cons [] f v s h = refl
any_bare-cons ((key, display) ∷ order) f v s h = ground (
  arith,
  any_bare-cons order f v s h,
  string_eq.beq_iff f key,
  ap (λ (k : String). lookup k s) {x = f} {y = key},
)

any_flag-empty :
    (reserved : String → Bool) (order : Order)
    → any_bare order [] ≡ any_flag (λ key. not (reserved key)) []
unfolding any_flag
any_flag-empty reserved [] = refl
any_flag-empty reserved ((key, display) ∷ order) = any_flag-empty reserved order

eqb-suc : (n : ℕ) → eqb (suc n) 0 ≡ false
eqb-suc n = ground arith

summary_of-is_ok : (worst : Option String) (n : ℕ) → (summary_of worst n == codes "OK") ≡ eqb n 0
summary_of-is_ok worst zero = refl
summary_of-is_ok none (suc n) = sym (eqb-suc n)
summary_of-is_ok (some worst) (suc zero) = refl
summary_of-is_ok (some worst) (suc (suc n)) = sym (eqb-suc (suc n))

length-catalogued :
    (order : Order) (s : Section) (found : List String)
    → eqb (length (catalogued order s found)) 0 ≡ (eqb (length found) 0 && not (any_set order s))
unfolding catalogued
length-catalogued [] s [] = refl
length-catalogued [] s (k ∷ found) = ground arith
length-catalogued ((key, display) ∷ order) s [] =
    ground (arith, length-catalogued order s (add_key (flag_set s key) key []))
length-catalogued ((key, display) ∷ order) s (k ∷ found) =
    ground (arith, length-catalogued order s (add_key (flag_set s key) key (k ∷ found)))

uncatalogued-flags :
    (cataloged_warn : List String) (fields : List String) (bits : Text) (found : List String)
    → are_bare fields ≡ true
    → uncatalogued cataloged_warn (flags fields bits) found ≡ found
unfolding uncatalogued flags
uncatalogued-flags cw [] bits found h = refl
uncatalogued-flags cw (f ∷ fields) [] found h =
    rw (uncatalogued, eq_false (has_prefix "warn_" f) (and_left _ _ h))
      (uncatalogued-flags cw fields [] found (and_right (not (has_prefix "warn_" f)) _ h))
uncatalogued-flags cw (f ∷ fields) (b ∷ bits) found h =
    rw (uncatalogued, eq_false (has_prefix "warn_" f) (and_left _ _ h))
      (uncatalogued-flags cw fields bits found (and_right (not (has_prefix "warn_" f)) _ h))

any_set-flags :
    (order : Order) (fields : List String) (bits : Text)
    → no_warn order fields ≡ true
    → any_set order (flags fields bits) ≡ any_bare order (flags fields bits)
unfolding flag_set
any_set-flags [] fields bits h = refl
any_set-flags ((key, display) ∷ order) fields bits h =
    ground
      (arith, any_set-flags order fields bits, flags-absent fields bits (append_string "warn_" key))

is_truthy-flag : (b : Bool) → is_truthy (some (flag b)) ≡ b
is_truthy-flag true = refl
is_truthy-flag false = refl

any_flag-cons :
    (reserved : String → Bool) (order : Order) (f : String) (b : Bool) (s : Section)
    → lookup f s ≡ none
    → is_listed f order ≡ not (reserved f)
    → any_bare order s ≡ any_flag (λ key. not (reserved key)) s
    → any_bare order ((f, flag b) ∷ s) ≡ any_flag (λ key. not (reserved key)) ((f, flag b) ∷ s)
unfolding any_flag
any_flag-cons reserved order f b s absent listed rest =
    any_bare-cons order f (flag b) s absent ∙ rw (is_truthy-flag b, listed, rest) refl

any_flag-flags :
    (reserved : String → Bool) (order : Order) (fields : List String) (bits : Text)
    → all_distinct fields ≡ true
    → are_listed reserved order fields ≡ true
    → any_bare order (flags fields bits) ≡ any_flag (λ key. not (reserved key)) (flags fields bits)
unfolding flags
any_flag-flags reserved order [] bits d h = any_flag-empty reserved order
any_flag-flags reserved order (f ∷ fields) [] d h =
    any_flag-cons reserved order f false (flags fields [])
      (flags-absent fields [] f (eq_false _ (and_left _ _ d))) (eq_of_same _ _ (and_left _ _ h))
      (any_flag-flags reserved order fields [] (and_right (not (is_named f fields)) _ d)
        (and_right (same (is_listed f order) (not (reserved f))) _ h))
any_flag-flags reserved order (f ∷ fields) (b ∷ bits) d h =
    any_flag-cons reserved order f (eqb b b'1') (flags fields bits)
      (flags-absent fields bits f (eq_false _ (and_left _ _ d))) (eq_of_same _ _ (and_left _ _ h))
      (any_flag-flags reserved order fields bits (and_right (not (is_named f fields)) _ d)
        (and_right (same (is_listed f order) (not (reserved f))) _ h))

fault_summary-is_ok :
    (show : Value → Text) (q : Section)
    → lookup "fault_code" q ≡ none
    → lookup "warning_code" q ≡ none
    → (fault_summary show q [] == codes "OK")
      ≡ eqb (length (active_keys warning_severity_order q)) 0
unfolding fault_summary merged
fault_summary-is_ok show q h k =
    rw (fault_summary, h, k)
      (summary_of-is_ok (first_active warning_severity_order q)
        (length (active_keys warning_severity_order q)))

active_keys-flags :
    (order : Order) (fields : List String) (bits : Text)
    → are_bare fields ≡ true
    → no_warn order fields ≡ true
    → eqb (length (active_keys order (flags fields bits))) 0
      ≡ not (any_bare order (flags fields bits))
unfolding active_keys
active_keys-flags order fields bits b w =
    ap (λ (found : List String). eqb (length found) 0)
      (uncatalogued-flags _ fields bits (catalogued order (flags fields bits) []) b)
    ∙ length-catalogued order (flags fields bits) []
    ∙ ap not (any_set-flags order fields bits w)

any_warning-bare : (q : Section) → any_warning q [] ≡ any_flag (λ key. not (is_reserved key)) q
unfolding any_warning any_flag
any_warning-bare q = ground arith

-- For any answer to QPIWS, the summary of faults reads "OK" exactly where the sensor of all warnings is
-- off.
pub summary-any_warning :
    (show : Value → Text) (ascii : Text)
    → let qpiws = decode_qpiws ascii in
      (fault_summary show qpiws [] == codes "OK") ≡ not (any_warning qpiws [])
unfolding decode_qpiws
summary-any_warning show ascii =
    let bits = keep_if is_bit ascii in
    fault_summary-is_ok show (flags qpiws_fields bits)
      (flags-absent qpiws_fields bits "fault_code" refl)
      (flags-absent qpiws_fields bits "warning_code" refl)
    ∙ active_keys-flags warning_severity_order qpiws_fields bits refl refl
    ∙ ap not (
        any_flag-flags is_reserved warning_severity_order qpiws_fields bits refl refl
        ∙ sym (any_warning-bare (flags qpiws_fields bits)))
