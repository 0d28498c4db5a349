-- ===== src/Coordinator/Fetch.antt =====
-- `DirectCoordinator`: the classification of an answer, the read with one retry, and the forced read
-- after a write. What the bus answers is an input, `none` where the transport raises.
use home_assistant_dess_moni.Base.{
  ℕ, ◌+◌, String, Bool, true, false, not, List, [], ◌∷◌, Option, none, some, if◌then◌else◌, leb,
  string_eq, pair_eq, list_eq, nat_eq, ◌==◌, ◌||◌, ◌&&◌,
}
use home_assistant_dess_moni.Base.Text.{codes, contains_text}
use home_assistant_dess_moni.Base.Float.{Float}
use home_assistant_dess_moni.Base.Dict.{Dict, lookup, lookup_or, insert, erase, contains}
use home_assistant_dess_moni.Values.{Value, text, Section}
use home_assistant_dess_moni.Sanity.{is_plausible_qpigs}
use home_assistant_dess_moni.Coordinator.Failure.{FailureTracker, on_success, on_failure, resolve}

-- `_NAK_SUPPRESS_THRESHOLD`
abbrev pub nak_suppress_threshold : ℕ
nak_suppress_threshold = 2

-- `_MAX_CONSECUTIVE_FAILURES`
abbrev pub max_consecutive_failures : ℕ
max_consecutive_failures = 6

abbrev pub Pair : Type 0
Pair = String × String

pub record Coordinator : Type 0 where
  pub failures : FailureTracker
  pub unsupported : List Pair
  pub nak_counts : Dict Pair ℕ

-- `result.get("status") == "NAK"`
abbrev has_nak_status : Option Value → Bool
has_nak_status (some (text s)) = s == codes "NAK"
has_nak_status _ = false

-- `isinstance(err, str) and "NAK" in err`
abbrev has_nak_error : Option Value → Bool
has_nak_error (some (text s)) = contains_text (codes "NAK") s
has_nak_error _ = false

unfoldable pub is_error_result : Section → Bool
is_error_result [] = true
is_error_result (entry ∷ rest) =
    contains "error" (entry ∷ rest) || has_nak_status (lookup "status" (entry ∷ rest))

unfoldable pub is_nak_result : Section → Bool
is_nak_result result =
    has_nak_status (lookup "status" result) || has_nak_error (lookup "error" result)

-- `pair in self._unsupported`
unfoldable pub is_member : Pair → List Pair → Bool
is_member p [] = false
is_member p (q ∷ rest) = q == p || is_member p rest

unfoldable pub is_unsupported : Coordinator → Pair → Bool
is_unsupported s pair = is_member pair s.unsupported

unfoldable pub note_nak : Coordinator → Pair → Bool × Coordinator
note_nak s pair =
    let n = lookup_or pair 0 s.nak_counts + 1 in
    let noted = record s { nak_counts = insert pair n s.nak_counts } in
    if is_member pair s.unsupported
    then (true, s)
    else if leb nak_suppress_threshold n
    then (true, record noted { unsupported = pair ∷ s.unsupported })
    else (false, noted)

unfoldable pub clear_nak_streak : Coordinator → Pair → Coordinator
clear_nak_streak s pair = record s { nak_counts = erase pair s.nak_counts }

-- `prev_section if "error" not in prev_section else {}`
unfoldable pub last_known : Section → Section
last_known prev = if contains "error" prev then [] else prev

-- How one round of the loop ends: with a section to return, or by going on.
pub data Round : Type 0 where
  done : Section → Round
  again : Round

unfoldable pub give_up : Coordinator → Pair → Section → Section × Coordinator
give_up s pair prev =
    let (n, failures) = on_failure s.failures pair.0 pair.1 in
    ((resolve failures n (last_known prev)).0, record s { failures = failures })

module _ (F : Float) (float : Value → Option F.Real) where
  -- `cmd == "QPIGS" and not is_plausible_qpigs(result)`
  unfoldable pub is_rejected : Pair → Section → Bool
  is_rejected pair result = pair.1 == "QPIGS" && not (is_plausible_qpigs F float result)

  unfoldable pub accept_result : Coordinator → Pair → Section → Option Section × Coordinator
  accept_result s pair result =
      let cleared = clear_nak_streak s pair in
      if is_nak_result result
      then (none, (note_nak s pair).1)
      else if is_error_result result
      then (none, s)
      else if is_rejected pair result
      then (none, s)
      else (some result, record cleared { failures = on_success cleared.failures pair.0 pair.1 })

  unfoldable pub attempt : Coordinator → Pair → Section → Option Section → Round × Coordinator
  attempt s pair prev none = (again, s)
  attempt s pair prev (some result) =
      let (suppressed, noted) = note_nak s pair in
      let (accepted, s') = accept_result s pair result in
      if is_nak_result result
      then (if suppressed then done (last_known prev) else again, noted)
      else elim accepted [ some clean ↦ (done clean, s') | none ↦ (again, s') ]

  -- The second round, after the short sleep.
  unfoldable pub retry : Coordinator → Pair → Section → Option Section → Section × Coordinator
  retry s pair prev reply =
      let (round, s') = attempt s pair prev reply in
      elim round [ done result ↦ (result, s') | again ↦ give_up s' pair prev ]

  -- `prev` is the section that was published last. Both answers are given; the second is read only
  -- where the first round goes on, and none for a command that is unsupported.
  unfoldable pub fetch_with_retry :
      Coordinator → Pair → Section → Option Section → Option Section → Section × Coordinator
  fetch_with_retry s pair prev first second =
      let (round, s') = attempt s pair prev first in
      let polled = (elim round as (λ _. Section × Coordinator) [
        | done result ↦ (result, s')
        | again ↦ retry s' pair prev second
      ]) in
      if is_unsupported s pair then (last_known prev, s) else polled

  -- `async_refresh_command`, on the section that is published: `none` leaves it alone.
  unfoldable pub refresh_command :
      Coordinator → Pair → Option Section → Option Section × Coordinator
  refresh_command s pair none = (none, s)
  refresh_command s pair (some []) = (none, s)
  refresh_command s pair (some (entry ∷ rest)) = accept_result s pair (entry ∷ rest)
