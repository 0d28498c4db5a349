-- ===== src/EyBond/Children.antt =====
-- coordinators/eybond_children.py: poll targets of the enabled dongles.
use home_assistant_dess_moni.Base.{
  ℕ, Bool, ◌||◌, ◌&&◌, List, [], ◌∷◌, ◌++◌, Option, none, some, ◌==◌, list_eq, nat_eq,
  if◌then◌else◌,
}
use home_assistant_dess_moni.Base.Text.{Text, codes}
use home_assistant_dess_moni.Base.Decimal.{decimal}
use home_assistant_dess_moni.EyBond.Registry.{DongleRecord, Registry, all}

-- coordinators/device_target.py
pub record DeviceTarget : Type 0 where
  pub id : Text
  pub uri : Text
  pub protocol : Text
  pub name : Text

abbrev pub voltronic : Text
voltronic = codes "voltronic"

abbrev pub pi18 : Text
pi18 = codes "pi18"

abbrev pub modbus : Text
modbus = codes "modbus"

abbrev pub default_broadcast : Text
default_broadcast = codes "255.255.255.255"

abbrev pub is_supported : Text → Bool
is_supported p = p == voltronic || p == pi18 || p == modbus

unfoldable pub child_id : DongleRecord → Text
child_id rec = codes "eybond:" ++ (rec.pn ++ (b':' ∷ decimal rec.devaddr))

-- `_CHILD_SCHEME.get(rec.protocol, "eybond")`
unfoldable pub child_scheme : Option Text → Text
child_scheme none = codes "eybond"
child_scheme (some p) =
    if p == pi18
    then codes "eybond-pi18"
    else if p == modbus
    then codes "eybond-modbus"
    else codes "eybond"

-- The settings of the hub's listener. An empty announce IP is falsy, as `None` is.
pub record Listener : Type 0 where
  pub bind_host : Text
  pub bind_port : ℕ
  pub broadcast : Text
  pub announce_ip : Text

abbrev broadcast_param : Text → List Text
broadcast_param [] = []
broadcast_param (c ∷ s) =
    if (c ∷ s) == default_broadcast then [] else (codes "broadcast=" ++ (c ∷ s)) ∷ []

abbrev announce_param : Text → List Text
announce_param [] = []
announce_param (c ∷ s) = (codes "announce=" ++ (c ∷ s)) ∷ []

-- `"&".join(params)`
abbrev join_params : List Text → Text
join_params [] = []
join_params (p ∷ []) = p
join_params (p ∷ q ∷ rest) = p ++ (b'&' ∷ join_params (q ∷ rest))

unfoldable pub build_child_uri : DongleRecord → Listener → Text
build_child_uri rec hub =
    child_scheme rec.protocol
    ++ (codes "://"
        ++ (hub.bind_host
            ++ (b':'
                ∷ (decimal hub.bind_port
                    ++ (b'/'
                        ∷ (decimal rec.devaddr
                            ++ (b'?'
                                ∷ join_params (
                                    (codes "pn=" ++ rec.pn)
                                    ∷ (broadcast_param hub.broadcast
                                        ++ announce_param hub.announce_ip)))))))))

-- `a or b` on texts
abbrev pub or_text : Text → Text → Text
or_text [] b = b
or_text (c ∷ a) b = c ∷ a

abbrev pub target_of : Listener → DongleRecord → Text → DeviceTarget
target_of hub rec protocol = record {
  id = or_text rec.legacy_id (child_id rec);
  uri = build_child_uri rec hub;
  protocol = protocol;
  name = or_text rec.name rec.pn;
}

-- One round of the loop: `none` is `continue`.
unfoldable pub child_target : Listener → DongleRecord → Option DeviceTarget
child_target hub rec = elim rec.protocol [
  | none ↦ none
  | some p ↦ if rec.enabled && is_supported p then some (target_of hub rec p) else none
]

abbrev pub add_target : Option DeviceTarget → List DeviceTarget → List DeviceTarget
add_target none targets = targets
add_target (some t) targets = t ∷ targets

abbrev pub collect_targets : Listener → List DongleRecord → List DeviceTarget
collect_targets hub [] = []
collect_targets hub (rec ∷ rest) = add_target (child_target hub rec) (collect_targets hub rest)

unfoldable pub build_child_targets : Listener → Registry → List DeviceTarget
build_child_targets hub reg = collect_targets hub (all reg)
