-- ===== src/Agent/Adapter.antt =====
-- api/adapters/agent.py, and the URIs of api/protocols/agent_http.py. `urlparse` is a parameter, and so
-- is what the HTTP request comes to: `none` for an error or a body that is empty.
use home_assistant_dess_moni.Base.{
  ℕ, suc, Bool, false, not, [], ◌∷◌, Option, none, some, eqb, if◌then◌else◌, ◌==◌, string_eq,
  nat_eq, list_eq,
}
use home_assistant_dess_moni.Base.Text.{Text, codes}
use home_assistant_dess_moni.Base.Int.{ℤ}
use home_assistant_dess_moni.Base.Float.{Float, lt}
use home_assistant_dess_moni.Base.Dict.{Dict, lookup}
use home_assistant_dess_moni.Values.{
  Value, OperatingMode, power_on, standby, line, battery, shutdown_approaching, fault, mode,
  Section,
}
use home_assistant_dess_moni.Agent.Split.{split_raw_by_command, text_of}

-- The parts of a URI that the code reads.
pub record ParseResult : Type 0 where
  pub scheme : Text
  pub hostname : Option Text
  pub port : Option ℕ
  pub path : Text

unfoldable pub lstrip_slashes : Text → Text
lstrip_slashes [] = []
lstrip_slashes (c ∷ s) = if eqb c b'/' then lstrip_slashes s else c ∷ s

-- A host and a port that are neither missing nor empty, and a path that is not empty.
abbrev pub agent_parts : Option Text → Option ℕ → Text → Option (Text × ℕ × Text)
agent_parts (some (c ∷ host)) (some (suc port)) (d ∷ device) = some (c ∷ host, suc port, d ∷ device)
agent_parts _ _ _ = none

-- `none` is the ValueError.
unfoldable pub parse_agent_uri : (Text → ParseResult) → Text → Option (Text × ℕ × Text)
parse_agent_uri urlparse device =
    let parsed = urlparse device in
    if not (parsed.scheme == codes "agent")
    then none
    else agent_parts parsed.hostname parsed.port (lstrip_slashes parsed.path)

-- `_AGENT_MODE_TO_PI30`
abbrev pub agent_mode_to_pi30 : Dict Text OperatingMode
agent_mode_to_pi30 =
    (codes "Mains", line)
    ∷ (codes "Line", line)
    ∷ (codes "Bypass", line)
    ∷ (codes "OffGrid", battery)
    ∷ (codes "Battery", battery)
    ∷ (codes "PowerOn", power_on)
    ∷ (codes "Standby", standby)
    ∷ (codes "Fault", fault)
    ∷ (codes "Shutdown", shutdown_approaching)
    ∷ []

-- `OperatingMode[name]`
abbrev pub mode_by_name : Dict Text OperatingMode
mode_by_name =
    (codes "PowerOn", power_on)
    ∷ (codes "Standby", standby)
    ∷ (codes "Line", line)
    ∷ (codes "Battery", battery)
    ∷ (codes "ShutdownApproaching", shutdown_approaching)
    ∷ (codes "Fault", fault)
    ∷ []

abbrev pub mode_section : Option OperatingMode → Option OperatingMode → Section
mode_section (some m) named = ("operating_mode", mode m) ∷ []
mode_section none (some m) = ("operating_mode", mode m) ∷ []
mode_section none none = []

unfoldable pub qmod_section : Option Value → Section
qmod_section none = []
qmod_section (some name) =
    mode_section (lookup (text_of (some name)) agent_mode_to_pi30)
      (lookup (text_of (some name)) mode_by_name)

module _ (F : Float) (float : Value → Option F.Real) (int_of : Value → Option ℤ)
    (show2 : F.Real → Text) where
  open F use {Real, lit}

  -- The body of an answer: the age, `none` where it is no number, and `raw`, `none` where it is no dict.
  pub record Payload : Type 0 where
    pub age_ms : Option Real
    pub raw : Option Section

  -- `age_ms > AGENT_STALE_THRESHOLD_MS`
  abbrev pub is_stale : Option Real → Bool
  is_stale none = false
  is_stale (some age) = lt F (lit 300000 0) age

  abbrev pub answer_from : Text → Option Section → Section
  answer_from command none = []
  answer_from command (some raw) =
      let sub = split_raw_by_command F float int_of show2 raw command in
      if command == codes "QMOD" then qmod_section (lookup "operating_mode" sub) else sub

  abbrev pub from_payload : Text → Option Payload → Section
  from_payload command none = []
  from_payload command (some payload) =
      if is_stale payload.age_ms then [] else answer_from command payload.raw

  -- `AgentAdapter.get_data`; `fetch` stands for `fetch_agent_snapshot`.
  unfoldable pub get_data :
      (Text → ParseResult) → (Text × ℕ × Text → Option Payload) → Text → Text → Section
  unfolding parse_agent_uri qmod_section
  get_data urlparse fetch uri command = elim (parse_agent_uri urlparse uri) [
    | none ↦ []
    | some target ↦ from_payload command (fetch target)
  ]
