-- ===== src/EyBond/Restart.antt =====
-- The start of `async_setup_eybond_hub` of eybond_hub.py, on what the store of the hub holds.
use home_assistant_dess_moni.Base.{String, [], Option, none, some, list_eq, nat_eq}
use home_assistant_dess_moni.Base.Text.{Text}
use home_assistant_dess_moni.Base.Dict.{Dict}
use home_assistant_dess_moni.EyBond.Registry.{
  DongleRecord, Registry, disconnected, reset_connection_state,
}
use home_assistant_dess_moni.EyBond.Stored.{Json, load}

-- `data or {}`
abbrev pub or_no_records : Option (Dict Text (Dict String Json)) → Dict Text (Dict String Json)
or_no_records none = []
or_no_records (some stored) = stored

abbrev pub without_sessions : Option Registry → Option Registry
without_sessions none = none
without_sessions (some reg) = some (reset_connection_state reg)

-- The registry that a hub hands to a new listener, from the store; `none` where a record raises.
unfoldable pub setup_registry : Option (Dict Text (Dict String Json)) → Option Registry
setup_registry data_stored = without_sessions (load (or_no_records data_stored))

-- A record as it is while no session is open.
abbrev pub offline : DongleRecord → DongleRecord
offline rec = record rec { status = disconnected; peer = [] }

abbrev pub offline_if : Option DongleRecord → Option DongleRecord
offline_if none = none
offline_if (some rec) = some (offline rec)
