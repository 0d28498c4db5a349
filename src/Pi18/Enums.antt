-- ===== src/Pi18/Enums.antt =====
-- The five fields of GS that name a member of an enumeration.
use home_assistant_dess_moni.Base.{
  ◌≡◌, refl, arith, Bool, true, false, ◌||◌, List, [], ◌∷◌, Option, none, some, string_eq, list_eq,
  nat_eq, ◌==◌, list_beq_iff,
}
use home_assistant_dess_moni.Base.Text.{Text, codes}
use home_assistant_dess_moni.Base.Int.{ℤ}
use home_assistant_dess_moni.Base.Dict.{Dict, lookup, values}
use home_assistant_dess_moni.Values.{Value, text}
use home_assistant_dess_moni.Pi18.Tables.{
  mppt_status, battery_power_direction, dcac_power_direction, line_power_direction,
}
use home_assistant_dess_moni.Pi18.Fields.{enum_name, name_or}
use home_assistant_dess_moni.Pi18.Status.{decode_gs, gs_section}

-- `s in texts`
abbrev pub is_one_of : Text → List Text → Bool
is_one_of s [] = false
is_one_of s (t ∷ texts) = t == s || is_one_of s texts

-- The value is there, and it is the name of a member.
abbrev pub names_member : Dict Text Text → Option Value → Bool
names_member members (some (text s)) = is_one_of s (values members)
names_member members _ = false

lookup-is_one_of :
    (members : Dict Text Text) (code name : Text)
    → lookup code members ≡ some name
    → is_one_of name (values members) ≡ true
lookup-is_one_of [] code name h = ground arith
lookup-is_one_of ((c, n) ∷ members) code name h =
    ground (arith, list_beq_iff n name, lookup-is_one_of members code name)

name_or-is_one_of :
    (members : Dict Text Text) (code default : Text) (found : Option Text)
    → lookup code members ≡ found
    → is_one_of default (values members) ≡ true
    → is_one_of (name_or found default) (values members) ≡ true
name_or-is_one_of members code default none e h = h
name_or-is_one_of members code default (some name) e h = lookup-is_one_of members code name e

enum_name-member :
    (members : Dict Text Text) (code default : Text)
    → is_one_of default (values members) ≡ true
    → names_member members (some (text (enum_name members code default))) ≡ true
unfolding enum_name
enum_name-member members code default h =
    name_or-is_one_of members code default (lookup code members) refl h

-- Whatever an inverter answers to GS, the two states of the chargers and the three directions of power
-- are names of members of their enumerations, so that an entity with these options takes them.
pub gs-members :
    (ratio_text : ℤ → ℤ → Text) (tokens : List Text)
    → let gs = decode_gs ratio_text tokens in
      (names_member mppt_status (lookup "mppt1_status" gs) ≡ true)
      × (names_member mppt_status (lookup "mppt2_status" gs) ≡ true)
      × (names_member battery_power_direction (lookup "battery_power_direction" gs) ≡ true)
      × (names_member dcac_power_direction (lookup "dcac_power_direction" gs) ≡ true)
      × (names_member line_power_direction (lookup "line_power_direction" gs) ≡ true)
unfolding decode_gs gs_section
gs-members ratio_text tokens = (
  enum_name-member mppt_status _ (codes "Abnormal") refl,
  enum_name-member mppt_status _ (codes "Abnormal") refl,
  enum_name-member battery_power_direction _ (codes "Idle") refl,
  enum_name-member dcac_power_direction _ (codes "Idle") refl,
  enum_name-member line_power_direction _ (codes "Idle") refl,
)
