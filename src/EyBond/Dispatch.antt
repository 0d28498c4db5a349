-- ===== src/EyBond/Dispatch.antt =====
-- api/protocols/eybond_dongle.py: URIs, the table of managers, the start of a listener, and the wrappers
-- around `send_frame`; and api/adapters/eybond.py. `urlparse` and `parse_qs` are parameters, what the
-- dongle answers and whether a port can be bound are inputs.
use home_assistant_dess_moni.Base.{
  ℕ, suc, Bool, true, false, ◌||◌, List, [], ◌∷◌, Option, none, some, ltb, keep_if, if◌then◌else◌,
  ◌==◌, string_eq, nat_eq, list_eq, pair_eq,
}
use home_assistant_dess_moni.Base.Text.{Text, codes, starts_with, contains_text, strip}
use home_assistant_dess_moni.Base.Int.{ℤ, pos}
use home_assistant_dess_moni.Base.Float.{Float, lt, zero_f}
use home_assistant_dess_moni.Base.Dict.{Dict, lookup, insert, erase}
use home_assistant_dess_moni.Values.{text, Section}
use home_assistant_dess_moni.Crc.Frame.{build_pi30_frame}
use home_assistant_dess_moni.Decode.Voltronic.{decode_direct_response}
use home_assistant_dess_moni.Pi18.Numbers.{parse_int}
use home_assistant_dess_moni.Pi18.Frame.{build_request_frame, before_cr}
use home_assistant_dess_moni.Pi18.Respond.{decode_pi18_response}
use home_assistant_dess_moni.Agent.Adapter.{lstrip_slashes}
use home_assistant_dess_moni.EyBond.Children.{default_broadcast}

-- The parts of a URI that the code reads, with the query as `parse_qs` gives it.
pub record UrlParts : Type 0 where
  pub hostname : Option Text
  pub port : Option ℕ
  pub path : Text
  pub query : Dict Text (List Text)

pub record EybondUri : Type 0 where
  pub bind_host : Text
  pub bind_port : ℕ
  pub devaddr : ℤ
  pub broadcast : Text
  pub announce_ip : Option Text

-- `(query.get(key) or [default])[0]`
abbrev pub first_or : Text → Option (List Text) → Text
first_or default (some (v ∷ vs)) = v
first_or default _ = default

-- `s or None`
abbrev pub or_none : Text → Option Text
or_none [] = none
or_none (c ∷ s) = some (c ∷ s)

abbrev pub host_or_any : Option Text → Text
host_or_any (some (c ∷ host)) = c ∷ host
host_or_any _ = codes "0.0.0.0"

abbrev pub port_or_default : Option ℕ → ℕ
port_or_default (some (suc port)) = suc port
port_or_default _ = 8899

abbrev pub devaddr_of : Text → ℤ
devaddr_of [] = pos 1
devaddr_of (c ∷ s) = elim (parse_int (c ∷ s)) [ none ↦ pos 1 | some n ↦ n ]

-- `parsed.path or "/1"`
abbrev pub path_or : Text → Text
path_or [] = codes "/1"
path_or (c ∷ s) = c ∷ s

unfoldable pub parse_eybond_uri : (Text → UrlParts) → Text → EybondUri
parse_eybond_uri urlparse device =
    let parsed = urlparse device in
    record {
      bind_host = host_or_any parsed.hostname;
      bind_port = port_or_default parsed.port;
      devaddr = devaddr_of (lstrip_slashes (path_or parsed.path));
      broadcast = first_or default_broadcast (lookup (codes "broadcast") parsed.query);
      announce_ip = or_none (strip (first_or [] (lookup (codes "announce") parsed.query)));
    }

unfoldable pub parse_pn_from_uri : (Text → UrlParts) → Text → Option Text
parse_pn_from_uri urlparse device =
    or_none (strip (first_or [] (lookup (codes "pn") (urlparse device).query)))

module _ (F : Float) where
  open F use {Real, add, lit}

  -- What the table and the start of the listener read of an `EybondManager`.
  pub record Listening : Type 0 where
    pub broadcast : Text
    pub announce_ip : Option Text
    pub has_server : Bool
    pub bind_failed_until : Real

  abbrev pub Managers : Type 0
  Managers = Dict (Text × ℕ) Listening

  abbrev pub new_listening : Text → Option Text → Listening
  new_listening broadcast announce_ip = record {
    broadcast = broadcast;
    announce_ip = announce_ip;
    has_server = false;
    bind_failed_until = zero_f F;
  }

  abbrev pub same_ip : Option Text → Option Text → Bool
  same_ip none none = true
  same_ip (some a) (some b) = a == b
  same_ip _ _ = false

  -- The parameters of a manager that is there; the default broadcast does not overwrite another.
  unfoldable pub with_parameters : Text → Option Text → Listening → Listening
  with_parameters broadcast announce_ip l =
      let is_default = broadcast == default_broadcast in
      let kept = if is_default then l.broadcast else broadcast in
      if same_ip l.announce_ip announce_ip then record l { broadcast = kept } else record l {
        broadcast = if is_default then default_broadcast else kept;
        announce_ip = announce_ip;
      }

  abbrev pub found_or_new : Text → Option Text → Option Listening → Listening
  found_or_new broadcast announce_ip none = new_listening broadcast announce_ip
  found_or_new broadcast announce_ip (some l) = with_parameters broadcast announce_ip l

  -- `ensure_started`: whether it raises no OSError. `binds` is what `start_server` comes to, if called,
  -- and `failed_at` is the time of its failure.
  unfoldable pub ensure_started : Real → Real → Bool → Listening → Bool × Listening
  ensure_started now failed_at binds l =
      if l.has_server
      then (true, l)
      else if lt F now l.bind_failed_until
      then (false, l)
      else if binds
      then (true, record l { has_server = true })
      else (false, record l { bind_failed_until = add failed_at (lit 30 0) })

  -- `_get_manager`
  unfoldable pub get_manager : Managers → EybondUri → Real → Real → Bool → Bool × Managers
  unfolding with_parameters ensure_started
  get_manager managers uri now failed_at binds =
      let key : Text × ℕ = (uri.bind_host, uri.bind_port) in
      let l = found_or_new uri.broadcast uri.announce_ip (lookup key managers) in
      let (ok, started) = ensure_started now failed_at binds l in (ok, insert key started managers)

  -- The part of `shutdown_eybond_manager` on the table.
  unfoldable pub shutdown_eybond_manager : Managers → Text → ℕ → Managers
  shutdown_eybond_manager managers bind_host bind_port = erase (bind_host, bind_port) managers

-- The frame of a command; `protocol` is whether it is PI18.
unfoldable pub voltronic_frame : Bool → Text → Text → List ℕ
voltronic_frame protocol device command =
    if protocol || starts_with device (codes "eybond-pi18://")
    then build_request_frame command
    else build_pi30_frame command

-- `send_eybond_set_command` on what `send_eybond_voltronic` gives.
unfoldable pub set_result : Option (List ℕ) → Section
set_result none = ("error", text (codes "no response")) ∷ []
set_result (some response) =
    if contains_text (codes "ACK") response || starts_with response (codes "^1")
    then ("status", text (codes "ACK")) ∷ []
    else if contains_text (codes "NAK") response || starts_with response (codes "^0")
    then ("status", text (codes "NAK")) ∷ []
    else if response == []
    then ("error", text (codes "empty response")) ∷ []
    else ("raw", text (keep_if (λ c. ltb c 128) response)) ∷ []

abbrev pub or_empty : Option Section → Section
or_empty none = []
or_empty (some section) = section

-- `EyBondAdapter.get_data` on the answer; what a decoder raises gives no data.
unfoldable pub eybond_data : (ℤ → ℤ → Text) → Bool → Text → Option (List ℕ) → Section
eybond_data ratio_text is_pi18 command (some (c ∷ response)) =
    if is_pi18
    then decode_pi18_response ratio_text command (c ∷ response)
    else or_empty
        (decode_direct_response command (keep_if (λ d. ltb d 128) (before_cr (c ∷ response))))
eybond_data ratio_text is_pi18 command _ = []
