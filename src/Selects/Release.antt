-- ===== src/Selects/Release.antt =====
-- How long a select holds the option that was chosen.
use home_assistant_dess_moni.Base.{
  ◌≡◌, refl, arith, Bool, true, false, ◌||◌, List, [], ◌∷◌, Option, none, some, if◌then◌else◌,
}
use home_assistant_dess_moni.Base.Text.{Text}
use home_assistant_dess_moni.Base.Float.{Float}
use home_assistant_dess_moni.Selects.Pending.{
  Select, handle_coordinator_update, choose, is_confirmed, is_expired,
}

module _ (F : Float) where
  open F use {Real}

  abbrev pub Polls : Type 0
  Polls = List (Real × Option Text)

  abbrev pub handle_all : Polls → Select F → Select F
  handle_all [] s = s
  handle_all ((now, current) ∷ polls) s =
      handle_all polls (handle_coordinator_update F now current s)

  -- Whether a poll shows the option, or comes later than the time to live.
  abbrev pub any_release : Text → Real → Polls → Bool
  any_release option since [] = false
  any_release option since ((now, current) ∷ polls) =
      (is_confirmed F current option || is_expired F now since) || any_release option since polls

  -- What the device shows in the last poll.
  abbrev pub last_current : Option Text → Polls → Option Text
  last_current before [] = before
  last_current before ((now, current) ∷ polls) = last_current current polls

  abbrev free : Real → Option Text → Select F
  free since shown = record { pending_option = none; pending_since = since; current_option = shown }

  abbrev Shows : Option Text → Polls → Select F → Type 0
  Shows before polls s = (s.pending_option ≡ none) × (s.current_option ≡ last_current before polls)

  handle_all-free :
      (polls : Polls) (since : Real) (shown : Option Text)
      → Shows shown polls (handle_all polls (free since shown))
  unfolding handle_coordinator_update
  handle_all-free [] since shown = (refl, refl)
  handle_all-free ((now, current) ∷ polls) since shown = handle_all-free polls since current

  -- What a run comes to, by whether one of its polls releases the option.
  abbrev RunOutcome : Bool → Select F → Option Text → Polls → Select F → Type 0
  RunOutcome released chosen before polls after =
      (released ≡ false → after ≡ chosen) × (released ≡ true → Shows before polls after)

  step-RunOutcome :
      (b : Bool) (polls : Polls) (since : Real) (chosen : Select F) (r : Bool)
      (current : Option Text)
      → RunOutcome r chosen current polls (handle_all polls chosen)
      → RunOutcome
          (b || r)
          chosen
          current
          polls
          (handle_all polls (if b then free since current else chosen))
  step-RunOutcome true polls since chosen r current ih =
      (λ h. ground arith, λ h. handle_all-free polls since current)
  step-RunOutcome false polls since chosen r current ih = ih

  all-RunOutcome :
      (polls : Polls) (since : Real) (option : Text) (s : Select F) (before : Option Text)
      → let chosen = choose F since option s in
        RunOutcome (any_release option since polls) chosen before polls (handle_all polls chosen)
  unfolding handle_coordinator_update choose
  all-RunOutcome [] since option s before = (λ h. refl, λ h. ground arith)
  all-RunOutcome ((now, current) ∷ polls) since option s before =
      step-RunOutcome (is_confirmed F current option || is_expired F now since) polls since
        (choose F since option s) (any_release option since polls) current
        (all-RunOutcome polls since option s current)

  -- After an option is chosen, polls change nothing as long as none of them shows the option or comes
  -- later than the time to live. Where one does, the option is held no more, and the select shows what
  -- the last poll has.
  pub handle_all-choose :
      (polls : Polls) (since : Real) (option : Text) (s : Select F)
      → let chosen = choose F since option s in
        let after = handle_all polls chosen in
        (any_release option since polls ≡ false → after ≡ chosen)
        × (any_release option since polls ≡ true
            → (after.pending_option ≡ none)
              × (after.current_option ≡ last_current (some option) polls))
  handle_all-choose polls since option s = all-RunOutcome polls since option s (some option)
