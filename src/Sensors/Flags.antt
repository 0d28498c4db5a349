-- ===== src/Sensors/Flags.antt =====
-- Which of the sensors for single warnings a PI18 inverter has.
use Prim.Native.String.{String}
use home_assistant_dess_moni.Base.{
  ℕ, zero, suc, ◌-◌, ◌<◌, ◌≡◌, refl, ap, ◌∙◌, arith, true, false, List, [], ◌∷◌, ◌++◌, Option, none,
  some, length, get_elem?, get_or, replicate, string_eq, ◌==◌, if◌then◌else◌,
}
use home_assistant_dess_moni.Base.Text.{Text}
use home_assistant_dess_moni.Base.Dict.{lookup, lookup-insert}
use home_assistant_dess_moni.Values.{Value, Section, flag}
use home_assistant_dess_moni.Decode.Tokens.{is_named, all_distinct, get_elem?-is_named}
use home_assistant_dess_moni.Pi18.Tables.{fws_warning_fields}
use home_assistant_dess_moni.Pi18.Fields.{padded_to}
use home_assistant_dess_moni.Pi18.Errors.{flag_each-absent}
use home_assistant_dess_moni.Pi18.Warnings.{is_set, flag_each, decode_fws}
use home_assistant_dess_moni.Agent.Split.{set_default}
use home_assistant_dess_moni.Sensors.Binary.{merged, warning_state, either_flag, append_string}

abbrev first_of : Option Value → Option Value → Option Value
first_of none w = w
first_of (some v) w = some v

lookup-set_default :
    (key k : String) (v : Value) (d : Section)
    → lookup key (set_default k v d) ≡ first_of (lookup key d) (if k == key then some v else none)
lookup-set_default key k v d = ground (arith, lookup-insert k key v d, string_eq.beq_iff k key)

-- An entry of the first section hides that of the second.
lookup-merged :
    (key : String) (qpiws qfws : Section)
    → lookup key (merged qpiws qfws) ≡ first_of (lookup key qpiws) (lookup key qfws)
unfolding merged
lookup-merged key qpiws [] = ground arith
lookup-merged key qpiws ((k, v) ∷ qfws) =
    ground (arith, lookup-merged key (set_default k v qpiws) qfws, lookup-set_default key k v qpiws)

flag_each-lookup :
    (fields : List String) (tokens : List Text) (i : ℕ) (f : String) (t : Text)
    → all_distinct fields ≡ true
    → get_elem? fields i ≡ some f
    → get_elem? tokens i ≡ some t
    → lookup f (flag_each fields tokens) ≡ some (flag (is_set t))
unfolding flag_each
flag_each-lookup [] tokens i f t d h k = ground arith
flag_each-lookup (g ∷ fields) [] i f t d h k = ground arith
flag_each-lookup (g ∷ fields) (u ∷ tokens) zero f t d h k =
    ground (arith, string_eq.beq_iff g f, ap is_set {x = u} {y = t})
flag_each-lookup (g ∷ fields) (u ∷ tokens) (suc i) f t d h k = ground (
  arith,
  string_eq.beq_iff g f,
  ap (λ (n : String). is_named n fields) {x = g} {y = f},
  get_elem?-is_named fields i f,
  flag_each-lookup fields tokens i f t,
)

get_elem?-replicate : (k i : ℕ) → i < k → get_elem? (replicate {A = Text} k []) i ≡ some []
get_elem?-replicate zero i h = absurd (omega arith)
get_elem?-replicate (suc k) zero h = refl
get_elem?-replicate (suc k) (suc i) h = get_elem?-replicate k i (omega arith)

get_elem?-padded :
    (n i : ℕ) (tokens : List Text)
    → i < n
    → get_elem? (tokens ++ replicate (n - length tokens) []) i ≡ some (get_or tokens i [])
get_elem?-padded n i [] h = get_elem?-replicate (n - 0) i (omega arith)
get_elem?-padded n zero (t ∷ tokens) h = refl
get_elem?-padded n (suc i) (t ∷ tokens) h =
    ap (λ (k : ℕ). get_elem? (tokens ++ replicate k []) i) {x = n - suc (length tokens)}
      {y = (n - 1) - length tokens} (omega arith)
    ∙ get_elem?-padded (n - 1) i tokens (omega arith)

either_merged :
    (key : String) (qfws : Section) (bare prefixed : Option Value)
    → lookup key qfws ≡ bare
    → lookup (append_string "warn_" key) qfws ≡ prefixed
    → warning_state key [] qfws ≡ either_flag bare prefixed
unfolding warning_state
either_merged key qfws bare prefixed h k =
    rw (lookup-merged key [] qfws, lookup-merged (append_string "warn_" key) [] qfws, h, k) refl

module _ (first : Text) (rest : List Text) where
  absent :
      (key : String)
      → is_named key ("fault_code" ∷ "fault_description" ∷ "has_fault" ∷ fws_warning_fields) ≡ false
      → lookup key (decode_fws (first ∷ rest)) ≡ none
  unfolding decode_fws
  absent key h = ground (arith, flag_each-absent fws_warning_fields (padded_to 16 rest) key)

  unknown :
      (key : String)
      → let names : List String =
          "fault_code" ∷ "fault_description" ∷ "has_fault" ∷ fws_warning_fields in
        is_named key names ≡ false
        → is_named (append_string "warn_" key) names ≡ false
        → warning_state key [] (decode_fws (first ∷ rest)) ≡ none
  unknown key h k = either_merged key _ none none (absent key h) (absent _ k)

  overload_set :
      lookup "warn_overload" (decode_fws (first ∷ rest)) ≡ some (flag (is_set (get_or rest 7 [])))
  unfolding decode_fws padded_to
  overload_set =
      flag_each-lookup fws_warning_fields (padded_to 16 rest) 7 "warn_overload" _ refl refl
        (get_elem?-padded 16 7 rest (omega arith))

  -- Of the sensors for single warnings, a PI18 inverter, which has no QPIWS, sets that of the overload
  -- alone, from the
  -- eighth warning of its answer; those of the fault, the temperature, the fan, the battery and the
  -- EEPROM stay unknown, whatever it answers.
  pub warnings-fws :
      let qfws = decode_fws (first ∷ rest) in
      (warning_state "overload" [] qfws ≡ some (is_set (get_or rest 7 [])))
      × (warning_state "inverter_fault" [] qfws ≡ none)
      × (warning_state "over_temperature" [] qfws ≡ none)
      × (warning_state "fan_locked" [] qfws ≡ none)
      × (warning_state "battery_under_shutdown" [] qfws ≡ none)
      × (warning_state "eeprom_fault" [] qfws ≡ none)
  warnings-fws = (
    either_merged "overload" _ none _ (absent "overload" refl) overload_set ∙ ground arith,
    unknown "inverter_fault" refl refl,
    unknown "over_temperature" refl refl,
    unknown "fan_locked" refl refl,
    unknown "battery_under_shutdown" refl refl,
    unknown "eeprom_fault" refl refl,
  )
