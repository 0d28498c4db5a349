-- ===== src/Pi18/Warnings.antt =====
-- api/decoders/pi18.py: `_decode_mod`, `_decode_fws`, `_decode_flag` and `_decode_di`.
use home_assistant_dess_moni.Base.{
  Bool, String, List, [], ◌∷◌, ◌++◌, Option, none, some, length, nat_eq, list_eq, string_eq,
}
use home_assistant_dess_moni.Base.Text.{Text, codes, strip}
use home_assistant_dess_moni.Base.Int.{ℤ, pos, negsuc, int_eq}
use home_assistant_dess_moni.Base.Dict.{lookup, lookup_or}
use home_assistant_dess_moni.Values.{Value, OperatingMode, text, flag, int, mode, decimal, Section}
use home_assistant_dess_moni.Pi18.Tables.{
  mode_to_operating_mode, fault_codes, fws_warning_fields, flag_fields, di_fields, Scale, tenth,
  whole, bool,
}
use home_assistant_dess_moni.Pi18.Numbers.{safe_int, is_nonzero, int_text}
use home_assistant_dess_moni.Pi18.Fields.{padded_to}

abbrev mode_or_unknown : Option OperatingMode → Value
mode_or_unknown (some m) = mode m
mode_or_unknown none = text (codes "Unknown")

unfoldable pub decode_mod : Text → Section
decode_mod payload =
    (
      "operating_mode",
      mode_or_unknown (lookup (safe_int (strip payload) (negsuc 0)) mode_to_operating_mode),
    )
    ∷ []

-- `bool(_safe_int(token, 0))`
unfoldable pub is_set : Text → Bool
is_set token = is_nonzero (safe_int token (pos 0))

-- One flag for each name, from the token at its place.
unfoldable pub flag_each : List String → List Text → Section
flag_each [] tokens = []
flag_each (name ∷ names) [] = []
flag_each (name ∷ names) (token ∷ tokens) = (name, flag (is_set token)) ∷ flag_each names tokens

-- `_PI18_FAULT_CODES.get(code, f"Unknown ({code})")`
unfoldable pub describe_fault : ℤ → Text
describe_fault code = lookup_or code (codes "Unknown (" ++ int_text code ++ codes ")") fault_codes

unfoldable pub decode_fws : List Text → Section
unfolding flag_each describe_fault
decode_fws [] = []
decode_fws (first ∷ rest) =
    let fault_code = safe_int first (pos 0) in
    ("fault_code", int fault_code)
    ∷ ("fault_description", text (describe_fault fault_code))
    ∷ ("has_fault", flag (is_nonzero fault_code))
    ∷ flag_each fws_warning_fields (padded_to (length fws_warning_fields) rest)

unfoldable pub decode_flag : List Text → Section
unfolding flag_each
decode_flag tokens = flag_each flag_fields (padded_to (length flag_fields) tokens)

-- `round(n * 0.1, 2)` is the float n / 10.
unfoldable pub scaled : Scale → Text → Value
scaled bool token = flag (is_set token)
scaled whole token = int (safe_int token (pos 0))
scaled tenth token = decimal (safe_int token (pos 0)) 1

unfoldable pub scale_each : List (String × Scale) → List Text → Section
unfolding scaled
scale_each [] tokens = []
scale_each (entry ∷ entries) [] = []
scale_each ((name, scale) ∷ entries) (token ∷ tokens) =
    (name, scaled scale token) ∷ scale_each entries tokens

unfoldable pub decode_di : List Text → Section
unfolding scale_each
decode_di tokens = scale_each di_fields (padded_to (length di_fields) tokens)
