-- ===== src/EyBond/Handler.antt =====
-- One round of the loop of `_handle_session`, behind the read of a frame.
use home_assistant_dess_moni.Base.{ℕ, List, [], ◌∷◌, map, take, eqb, ltb, if◌then◌else◌}
use home_assistant_dess_moni.Base.Text.{Text}
use mathlib.Core.List.{reverse}
use home_assistant_dess_moni.EyBond.Wire.{EyHeader, fc_heartbeat, fc_forward2device}
use home_assistant_dess_moni.EyBond.Manager.{Manager, on_heartbeat, on_forward}

-- `.decode("ascii", errors="replace")`
abbrev pub decode_replace : List ℕ → Text
decode_replace = map (λ b. if ltb b 128 then b else 0xfffd)

abbrev pub lstrip_nul : Text → Text
lstrip_nul [] = []
lstrip_nul (c ∷ s) = if eqb c 0 then lstrip_nul s else c ∷ s

-- The PN in the payload of a heartbeat.
unfoldable pub pn_of : List ℕ → Text
pn_of payload = reverse (lstrip_nul (reverse (lstrip_nul (decode_replace (take 14 payload)))))

unfoldable pub handle_frame : Text → Manager → ℕ → EyHeader → List ℕ → Manager
handle_frame now m sid h payload =
    if eqb h.fcode fc_heartbeat
    then on_heartbeat now m sid (pn_of payload)
    else if eqb h.fcode fc_forward2device
    then on_forward m sid h.tid payload
    else m
