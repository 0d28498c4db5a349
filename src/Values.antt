-- ===== src/Values.antt =====
-- The values of the flat dicts that decoders return, and `OperatingMode` of api/decoders/enums.py.
use home_assistant_dess_moni.Base.{ℕ, Bool, String, List, Option, none, some}
use home_assistant_dess_moni.Base.Decimal.{read_digits}
use home_assistant_dess_moni.Base.Text.{Text}
use home_assistant_dess_moni.Base.Int.{ℤ}
use home_assistant_dess_moni.Base.Dict.{Dict}

pub data OperatingMode : Type 0 where
  power_on standby line battery shutdown_approaching fault : OperatingMode

-- `decimal n k` is the float n / 10 ^ k.
pub data Value : Type 0 where
  text : Text → Value
  int : ℤ → Value
  flag : Bool → Value
  decimal : ℤ → ℕ → Value
  mode : OperatingMode → Value
  ints : List ℤ → Value
  texts : List Text → Value

-- What a command is answered with, and what a section of the coordinator's data holds.
abbrev pub Section : Type 0
Section = Dict String Value

-- A `float(x)` for runs: the digits of a text, in whole units.
abbrev pub whole_number : Value → Option ℕ
whole_number (text t) = some (read_digits 0 t)
whole_number _ = none
