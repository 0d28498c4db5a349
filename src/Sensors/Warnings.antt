-- ===== src/Sensors/Warnings.antt =====
-- What the binary sensors make of a PI18 answer to FWS.
use Prim.Native.String.{String}
use home_assistant_dess_moni.Base.{
  ℕ, zero, suc, ◌-◌, ◌≡◌, refl, ap, ◌∙◌, arith, Bool, true, false, ◌&&◌, ◌||◌, List, [], ◌∷◌, ◌++◌,
  none, length, take, replicate, string_eq,
}
use home_assistant_dess_moni.Base.Text.{Text, strip, lstrip}
use home_assistant_dess_moni.Base.Int.{ℤ, pos}
use home_assistant_dess_moni.Base.Dict.{lookup}
use home_assistant_dess_moni.Values.{Section, int, text, flag}
use home_assistant_dess_moni.Pi18.Tables.{fws_warning_fields}
use home_assistant_dess_moni.Pi18.Numbers.{safe_int, parse_int, signed_int, is_nonzero}
use home_assistant_dess_moni.Pi18.Fields.{padded_to}
use home_assistant_dess_moni.Pi18.Errors.{flag_each-absent}
use home_assistant_dess_moni.Pi18.Warnings.{is_set, flag_each, decode_fws}
use home_assistant_dess_moni.Agent.Split.{has_prefix}
use home_assistant_dess_moni.Sensors.Binary.{any_flag, any_warning}

-- Whether one of the tokens is a number other than 0.
abbrev pub any_set : List Text → Bool
any_set [] = false
any_set (t ∷ tokens) = is_set t || any_set tokens

abbrev all_warn : List String → Bool
all_warn [] = true
all_warn (f ∷ fields) = has_prefix "warn_" f && all_warn fields

any_flag-each :
    (fields : List String) (tokens : List Text)
    → all_warn fields ≡ true
    → any_flag (has_prefix "warn_") (flag_each fields tokens)
      ≡ any_set (take (length fields) tokens)
unfolding any_flag flag_each
any_flag-each [] tokens h = refl
any_flag-each (f ∷ fields) [] h = refl
any_flag-each (f ∷ fields) (t ∷ tokens) h = ground (arith, any_flag-each fields tokens)

blank : is_set [] ≡ false
unfolding is_set safe_int parse_int signed_int strip lstrip
blank = refl

any_set-blank : (n k : ℕ) → any_set (take n (replicate k [])) ≡ false
any_set-blank zero k = refl
any_set-blank (suc n) zero = refl
any_set-blank (suc n) (suc k) = rw blank (any_set-blank n k)

any_set-padded :
    (n k : ℕ) (tokens : List Text)
    → any_set (take n (tokens ++ replicate k [])) ≡ any_set (take n tokens)
any_set-padded zero k tokens = refl
any_set-padded (suc n) k [] = any_set-blank (suc n) k
any_set-padded (suc n) k (t ∷ tokens) = ap (λ (b : Bool). is_set t || b) (any_set-padded n k tokens)

any_warning-flags :
    (n : ℤ) (description : Text) (flags : Section)
    → lookup "warning_code" flags ≡ none
    → lookup "has_warning" flags ≡ none
    → any_warning [] (
        ("fault_code", int n)
        ∷ ("fault_description", text description)
        ∷ ("has_fault", flag (is_nonzero n))
        ∷ flags)
      ≡ (is_nonzero n || any_flag (has_prefix "warn_") flags)
unfolding any_warning any_flag
any_warning-flags n description flags h k = ground (arith, h, k)

-- The sensor of all warnings of a PI18 inverter is on exactly where the fault code is a number other
-- than 0, or one of the sixteen warnings behind it is.
pub any_warning-fws :
    (first : Text) (rest : List Text)
    → any_warning [] (decode_fws (first ∷ rest)) ≡ (is_set first || any_set (take 16 rest))
unfolding decode_fws is_set padded_to
any_warning-fws first rest =
    let tokens = padded_to 16 rest in
    any_warning-flags (safe_int first (pos 0)) _ (flag_each fws_warning_fields tokens)
      (flag_each-absent fws_warning_fields tokens "warning_code" refl)
      (flag_each-absent fws_warning_fields tokens "has_warning" refl)
    ∙ ap (λ (b : Bool). is_nonzero (safe_int first (pos 0)) || b)
        (any_flag-each fws_warning_fields tokens refl ∙ any_set-padded 16 (16 - length rest) rest)
