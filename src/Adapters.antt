-- ===== src/Adapters.antt =====
-- api/adapters/factory.py: which adapter speaks to a device URI.
use home_assistant_dess_moni.Base.{Bool, ◌||◌, if◌then◌else◌}
use home_assistant_dess_moni.Base.Text.{Text, codes, starts_with}

-- The adapter classes; `eybond` carries its `is_pi18`.
pub data Adapter : Type 0 where
  agent modbus pi18 voltronic : Adapter
  eybond : Bool → Adapter

unfoldable pub get_adapter : Text → Adapter
get_adapter uri =
    if starts_with uri (codes "agent://")
    then agent
    else if starts_with uri (codes "modbus://") || starts_with uri (codes "eybond-modbus://")
    then modbus
    else if starts_with uri (codes "pi18://") || starts_with uri (codes "pi18-serial://")
    then pi18
    else if starts_with uri (codes "eybond://") || starts_with uri (codes "eybond-pi18://")
    then eybond (starts_with uri (codes "eybond-pi18://"))
    else voltronic
