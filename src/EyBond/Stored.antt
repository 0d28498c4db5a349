-- ===== src/EyBond/Stored.antt =====
-- The registry in the store of a config entry: `to_dict`, `from_dict` and `load`. A stored value of
-- another type than its field's is outside the model.
use home_assistant_dess_moni.Base.{
  ℕ, Bool, String, [], ◌∷◌, Option, none, some, ◌==◌, string_eq, list_eq, nat_eq, if◌then◌else◌,
  ◌≡◌, refl, arith, false,
}
use home_assistant_dess_moni.Base.Text.{Text, codes}
use home_assistant_dess_moni.Base.Dict.{Dict, lookup}
use home_assistant_dess_moni.EyBond.Registry.{
  DongleStatus, connected, disconnected, DongleRecord, Registry,
}

pub data Json : Type 0 where
  null : Json
  str : Text → Json
  num : ℕ → Json
  bool : Bool → Json

unfoldable pub status_value : DongleStatus → Text
status_value connected = codes "connected"
status_value disconnected = codes "disconnected"

-- `DongleStatus(value)`, and `DISCONNECTED` where that raises.
unfoldable pub status_of : Option Json → DongleStatus
status_of (some (str s)) = if s == codes "connected" then connected else disconnected
status_of _ = disconnected

abbrev protocol_value : Option Text → Json
protocol_value none = null
protocol_value (some p) = str p

unfoldable pub to_dict : DongleRecord → Dict String Json
unfolding status_value
to_dict rec =
    ("pn", str rec.pn)
    ∷ ("name", str rec.name)
    ∷ ("enabled", bool rec.enabled)
    ∷ ("protocol", protocol_value rec.protocol)
    ∷ ("devaddr", num rec.devaddr)
    ∷ ("status", str (status_value rec.status))
    ∷ ("peer", str rec.peer)
    ∷ ("first_seen", str rec.first_seen)
    ∷ ("last_seen", str rec.last_seen)
    ∷ ("model_hint", str rec.model_hint)
    ∷ ("legacy_id", str rec.legacy_id)
    ∷ []

-- One keyword argument of the constructor: the stored value, or the default where the key is missing.
-- `none` is a value of another type.
abbrev text_field : Option Json → Option Text → Option Text
text_field none default = default
text_field (some (str s)) default = some s
text_field (some _) default = none

abbrev bool_field : Option Json → Bool → Option Bool
bool_field none default = some default
bool_field (some (bool b)) default = some b
bool_field (some _) default = none

abbrev num_field : Option Json → ℕ → Option ℕ
num_field none default = some default
num_field (some (num n)) default = some n
num_field (some _) default = none

abbrev protocol_field : Option Json → Option (Option Text)
protocol_field none = some none
protocol_field (some null) = some none
protocol_field (some (str s)) = some (some s)
protocol_field (some _) = none

infixl 5 ◌>>=◌
abbrev ◌>>=◌ {ℓ κ} : {A : Type ℓ} {B : Type κ} → Option A → (A → Option B) → Option B
none >>= f = none
some a >>= f = f a

-- Unknown keys are dropped. `none`: the PN is missing, so that the constructor raises.
unfoldable pub from_dict : Dict String Json → Option DongleRecord
unfolding status_of
from_dict d = do
  pn ← text_field (lookup "pn" d) none
  name ← text_field (lookup "name" d) (some [])
  enabled ← bool_field (lookup "enabled" d) false
  protocol ← protocol_field (lookup "protocol" d)
  devaddr ← num_field (lookup "devaddr" d) 1
  peer ← text_field (lookup "peer" d) (some [])
  first_seen ← text_field (lookup "first_seen" d) (some [])
  last_seen ← text_field (lookup "last_seen" d) (some [])
  model_hint ← text_field (lookup "model_hint" d) (some [])
  legacy_id ← text_field (lookup "legacy_id" d) (some [])
  some (record {
    pn = pn;
    name = name;
    enabled = enabled;
    protocol = protocol;
    devaddr = devaddr;
    status = status_of (lookup "status" d);
    peer = peer;
    first_seen = first_seen;
    last_seen = last_seen;
    model_hint = model_hint;
    legacy_id = legacy_id;
  })

-- `EybondRegistry.to_dict`
unfoldable pub registry_to_dict : Registry → Dict Text (Dict String Json)
unfolding to_dict
registry_to_dict [] = []
registry_to_dict ((pn, rec) ∷ reg) = (pn, to_dict rec) ∷ registry_to_dict reg

-- `load`: `none` where one of the records raises.
unfoldable pub load : Dict Text (Dict String Json) → Option Registry
unfolding from_dict
load [] = some []
load ((pn, d) ∷ stored) = do rec ← from_dict d; reg ← load stored; some ((pn, rec) ∷ reg)

protocol_field-value : (p : Option Text) → protocol_field (some (protocol_value p)) ≡ some p
protocol_field-value none = refl
protocol_field-value (some p) = refl

status_of-value : (s : DongleStatus) → status_of (some (str (status_value s))) ≡ s
unfolding status_of status_value
status_of-value connected = refl
status_of-value disconnected = refl

from_dict-to_dict : (rec : DongleRecord) → from_dict (to_dict rec) ≡ some rec
unfolding from_dict to_dict
from_dict-to_dict rec = rw (protocol_field-value rec.protocol) (rw (status_of-value rec.status))

-- A registry in its stored form is loaded with every record unchanged.
pub load-to_dict : (reg : Registry) → load (registry_to_dict reg) ≡ some reg
unfolding load registry_to_dict
load-to_dict [] = refl
load-to_dict ((pn, rec) ∷ reg) = ground (arith, from_dict-to_dict rec, load-to_dict reg)

-- A stored record with unknown keys, an unknown status and no configuration.
sparse :
    from_dict (("status", str (codes "lost")) ∷ ("pn", str (codes "A1")) ∷ ("extra", null) ∷ [])
    ≡ some (record {
      pn = codes "A1";
      name = [];
      enabled = false;
      protocol = none;
      devaddr = 1;
      status = disconnected;
      peer = [];
      first_seen = [];
      last_seen = [];
      model_hint = [];
      legacy_id = [];
    })
unfolding from_dict
sparse = refl
