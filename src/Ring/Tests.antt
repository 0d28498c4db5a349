-- ===== src/Ring/Tests.antt =====
-- Runs of the log of frames.
use home_assistant_dess_moni.Base.{◌≡◌, refl, true, List, [], ◌∷◌, ◌++◌, replicate, list_eq, nat_eq}
use home_assistant_dess_moni.Base.Text.{Text, codes}
use home_assistant_dess_moni.Base.Dict.{lookup_or}
use home_assistant_dess_moni.Ring.Log.{FrameRecord}
use home_assistant_dess_moni.Ring.Recent.{log_all, entries_of, latest, log_all-latest}

abbrev old_frame : FrameRecord
old_frame = record { timestamp = codes "10:00"; raw = 0x41 ∷ []; crc_valid = true }

-- One more of QMOD than the log keeps, with one of QPIGS among them.
abbrev mixed : List (Text × FrameRecord)
mixed =
    replicate 20 (codes "QMOD", old_frame)
    ++ ((codes "QPIGS", old_frame) ∷ (codes "QMOD", old_frame) ∷ [])

log_all-latest_example :
    lookup_or (codes "QMOD") [] (log_all [] mixed) ≡ latest 20 (entries_of (codes "QMOD") mixed)
log_all-latest_example = log_all-latest [] (codes "QMOD") mixed refl
