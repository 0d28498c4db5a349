-- ===== src/Pi18/Fields.antt =====
-- api/decoders/pi18.py: the tokens of an answer by the names of a table.
use home_assistant_dess_moni.Base.{
  Option, none, some, ℕ, ◌-◌, List, [], ◌∷◌, ◌++◌, String, length, replicate, string_eq, list_eq,
  nat_eq,
}
use home_assistant_dess_moni.Base.Text.{Text}
use home_assistant_dess_moni.Base.Int.{ℤ, pos}
use home_assistant_dess_moni.Base.Dict.{Dict, lookup, lookup_or}
use home_assistant_dess_moni.Pi18.Numbers.{safe_int}

-- `list(tokens) + [""] * (n - len(tokens))`
unfoldable pub padded_to : ℕ → List Text → List Text
padded_to n tokens = tokens ++ replicate (n - length tokens) []

-- `dict(zip(fields, values))`; the fields of a table are distinct.
unfoldable pub zip_texts : List String → List Text → Dict String Text
zip_texts [] values = []
zip_texts (f ∷ fields) [] = []
zip_texts (f ∷ fields) (v ∷ values) = (f, v) ∷ zip_texts fields values

-- `raw` of a decoder.
unfoldable pub raw_of : List String → List Text → Dict String Text
unfolding padded_to zip_texts
raw_of fields tokens = zip_texts fields (padded_to (length fields) tokens)

-- `raw[name]`, for a name of the table.
unfoldable pub field : Dict String Text → String → Text
field raw name = lookup_or name [] raw

-- `_safe_int(raw[name])`
unfoldable pub number : Dict String Text → String → ℤ
number raw name = safe_int (field raw name) (pos 0)

abbrev pub name_or : Option Text → Text → Text
name_or (some name) default = name
name_or none default = default

-- `_enum_name(enum_cls, code, default)`
unfoldable pub enum_name : Dict Text Text → Text → Text → Text
enum_name members code default = name_or (lookup code members) default
