-- ===== src/Selects/Tests.antt =====
-- Runs of the selects.
use home_assistant_dess_moni.Base.{◌≡◌, refl, true, false, [], ◌∷◌, none, some}
use home_assistant_dess_moni.Base.Text.{codes}
use home_assistant_dess_moni.Base.Decimal.{decimal, padded}
use home_assistant_dess_moni.Values.{text}
use home_assistant_dess_moni.Selects.Options.{select_max_utility, max_utility_command}
use home_assistant_dess_moni.Selects.Pending.{Select, send_until_ack, is_ack, choose}
use home_assistant_dess_moni.Selects.Release.{
  Polls, handle_all, any_release, last_current, handle_all-choose,
}
use home_assistant_dess_moni.Base.Units.{units}

-- A device that reports currents with a decimal point gets them so.
float_format_run : select_max_utility (some (codes "02.0")) (codes "2") ≡ some (codes "MUCHGC02.0")
unfolding select_max_utility max_utility_command padded decimal
float_format_run = refl

second_write_acked :
    send_until_ack
      ((("error", text (codes "no response")) ∷ []) ∷ (("Raw", text (codes "ACK9 ")) ∷ []) ∷ [])
    ≡ (2, true)
unfolding send_until_ack is_ack
second_write_acked = refl

abbrev settled : Select units
settled = record { pending_option = none; pending_since = 0; current_option = some (codes "Solar") }

-- A stale poll, and one that shows the option.
abbrev two_polls : Polls units
two_polls = (20, some (codes "Solar")) ∷ (30, some (codes "SBU")) ∷ []

handle_all-choose_example :
    let chosen = choose units 10 (codes "SBU") settled in
    let after = handle_all units two_polls chosen in
    (any_release units (codes "SBU") 10 two_polls ≡ false → after ≡ chosen)
    × (any_release units (codes "SBU") 10 two_polls ≡ true
        → (after.pending_option ≡ none)
          × (after.current_option ≡ last_current units (some (codes "SBU")) two_polls))
handle_all-choose_example = handle_all-choose units two_polls 10 (codes "SBU") settled
