-- ===== src/EyBond/Registry.antt =====
-- api/protocols/eybond_discovery.py: the registry of dongles, keyed by PN. Times are ISO texts.
use home_assistant_dess_moni.Base.{
  ℕ, Bool, true, false, List, [], ◌∷◌, Option, none, some, keep_if, map, ◌≡◌, list_eq, nat_eq,
  string_eq,
}
use home_assistant_dess_moni.Base.Text.{Text}
use home_assistant_dess_moni.Base.Dict.{Dict, lookup, insert, erase, values, contains}

pub data DongleStatus : Type 0 where
  connected disconnected : DongleStatus

pub record DongleRecord : Type 0 where
  pub pn : Text
  pub name : Text
  pub enabled : Bool
  pub protocol : Option Text
  pub devaddr : ℕ
  pub status : DongleStatus
  pub peer : Text
  pub first_seen : Text
  pub last_seen : Text
  pub model_hint : Text
  pub legacy_id : Text

-- `DongleRecord(pn=pn)`: the defaults of the dataclass.
abbrev pub fresh : Text → DongleRecord
fresh pn = record {
  pn = pn;
  name = [];
  enabled = false;
  protocol = none;
  devaddr = 1;
  status = disconnected;
  peer = [];
  first_seen = [];
  last_seen = [];
  model_hint = [];
  legacy_id = [];
}

abbrev pub Registry : Type 0
Registry = Dict Text DongleRecord

-- `if peer: rec.peer = peer`
abbrev peer_or : Text → Text → Text
peer_or [] old = old
peer_or (c ∷ peer) old = c ∷ peer

abbrev pub seen : Text → Text → DongleStatus → DongleRecord → DongleRecord
seen now peer status rec = record rec {
  last_seen = now;
  status = status;
  peer = peer_or peer rec.peer;
}

unfoldable pub record_seen : Text → Text → Text → DongleStatus → Registry → Registry
record_seen now pn peer status reg = elim (lookup pn reg) [
  | none ↦
      insert pn
        (record (fresh pn) { first_seen = now; last_seen = now; status = status; peer = peer }) reg
  | some rec ↦ insert pn (seen now peer status rec) reg
]

unfoldable pub mark_disconnected : Text → Text → Registry → Registry
mark_disconnected now pn reg = elim (lookup pn reg) [
  | none ↦ reg
  | some rec ↦ insert pn (record rec { status = disconnected; last_seen = now }) reg
]

unfoldable pub reset_connection_state : Registry → Registry
reset_connection_state [] = []
reset_connection_state ((pn, rec) ∷ reg) =
    (pn, record rec { status = disconnected; peer = [] }) ∷ reset_connection_state reg

-- A setter writes one field of the record of `pn`, which `_ensure` creates where it is missing.
unfoldable pub update : Text → (DongleRecord → DongleRecord) → Registry → Registry
update pn write reg = elim (lookup pn reg) [
  | none ↦ insert pn (write (fresh pn)) reg
  | some rec ↦ insert pn (write rec) reg
]

unfoldable pub set_enabled : Text → Bool → Registry → Registry
set_enabled pn enabled = update pn (λ rec. record rec { enabled = enabled })

unfoldable pub set_protocol : Text → Option Text → Registry → Registry
set_protocol pn protocol = update pn (λ rec. record rec { protocol = protocol })

unfoldable pub set_devaddr : Text → ℕ → Registry → Registry
set_devaddr pn devaddr = update pn (λ rec. record rec { devaddr = devaddr })

unfoldable pub set_name : Text → Text → Registry → Registry
set_name pn name = update pn (λ rec. record rec { name = name })

unfoldable pub remove : Text → Registry → Registry
remove pn reg = erase pn reg

unfoldable pub put : DongleRecord → Registry → Registry
put rec reg = insert rec.pn rec reg

abbrev pub all : Registry → List DongleRecord
all = values

unfoldable pub enabled_pns : Registry → List Text
enabled_pns reg = map (λ rec. rec.pn) (keep_if (λ rec. rec.enabled) (all reg))

abbrev is_connected : DongleStatus → Bool
is_connected connected = true
is_connected disconnected = false

unfoldable pub connected_pns : Registry → List Text
connected_pns reg = map (λ rec. rec.pn) (keep_if (λ rec. is_connected rec.status) (all reg))

-- Each record stands under its own PN, and no PN stands twice.
abbrev pub IsKeyed : Registry → Type 0
IsKeyed [] = Unit
IsKeyed ((pn, rec) ∷ reg) = (rec.pn ≡ pn) × (contains pn reg ≡ false) × IsKeyed reg
