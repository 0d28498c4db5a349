-- ===== src/Selects/Pending.antt =====
-- `SelectBase` of select.py: the option that is held until the device confirms it. The answers to the
-- writes, and what the reads after them publish, are inputs, with their times.
use home_assistant_dess_moni.Base.{
  ℕ, suc, Bool, true, false, not, ◌&&◌, ◌||◌, List, [], ◌∷◌, Option, none, some, if◌then◌else◌,
  ◌==◌, string_eq, list_eq, nat_eq, take,
}
use home_assistant_dess_moni.Base.Text.{Text, codes, contains_text}
use home_assistant_dess_moni.Base.Float.{Float, lt}
use home_assistant_dess_moni.Base.Dict.{lookup, contains}
use home_assistant_dess_moni.Values.{Value, text, Section}

abbrev pub is_status : Text → Option Value → Bool
is_status word (some (text t)) = t == word
is_status word _ = false

-- `any(isinstance(v, str) and "ACK" in v and "NAK" not in v for v in result.values())`
abbrev pub has_ack : Section → Bool
has_ack [] = false
has_ack ((key, text t) ∷ result) =
    contains_text (codes "ACK") t && not (contains_text (codes "NAK") t) || has_ack result
has_ack ((key, v) ∷ result) = has_ack result

unfoldable pub is_ack : Section → Bool
is_ack result =
    if is_status (codes "ACK") (lookup "status" result)
    then true
    else if is_status (codes "NAK") (lookup "status" result) || contains "error" result
    then false
    else has_ack result

-- The writes until one is acknowledged, of at most as many as there are answers.
unfoldable pub send_until_ack : List Section → ℕ × Bool
unfolding is_ack
send_until_ack [] = (0, false)
send_until_ack (result ∷ results) =
    let (sent, acked) = send_until_ack results in
    if is_ack result then (1, true) else (suc sent, acked)

module _ (F : Float) where
  open F use {Real, sub, lit}

  pub record Select : Type 0 where
    pub pending_option : Option Text
    pub pending_since : Real
    pub current_option : Option Text

  abbrev pub is_confirmed : Option Text → Text → Bool
  is_confirmed none pending = false
  is_confirmed (some current) pending = current == pending

  abbrev pub is_expired : Real → Real → Bool
  is_expired now since = lt F (lit 1500 1) (sub now since)

  abbrev pub held : Real → Option Text → Option Text → Select → Select
  held now current none s = record s { current_option = current }
  held now current (some pending) s =
      if is_confirmed current pending || is_expired now s.pending_since
      then record s { pending_option = none; current_option = current }
      else record s { current_option = some pending }

  -- `_handle_coordinator_update`, with what `_read_current` gives.
  unfoldable pub handle_coordinator_update : Real → Option Text → Select → Select
  handle_coordinator_update now current s = held now current s.pending_option s

  -- The start of `_set_and_confirm`.
  unfoldable pub choose : Real → Text → Select → Select
  choose now option s = record {
    pending_option = some option;
    pending_since = now;
    current_option = some option;
  }

  -- A read that publishes nothing is `none`.
  abbrev pub after_refresh : Option (Real × Option Text) → Select → Select
  after_refresh none s = s
  after_refresh (some (now, current)) s = handle_coordinator_update now current s

  abbrev is_released : Select → Bool
  is_released s = elim s.pending_option [ none ↦ true | some pending ↦ false ]

  unfoldable pub confirm : List (Option (Real × Option Text)) → Select → Select
  unfolding handle_coordinator_update
  confirm [] s = s
  confirm (refresh ∷ refreshes) s =
      let after = after_refresh refresh s in
      let rest = confirm refreshes after in if is_released after then after else rest

  -- `_set_and_confirm`: how many writes were sent, whether one was acknowledged, and the state after.
  unfoldable pub set_and_confirm :
      Real → Text → List Section → List (Option (Real × Option Text)) → Select → (ℕ × Bool) × Select
  unfolding send_until_ack choose confirm
  set_and_confirm now option results refreshes s =
      (send_until_ack (take 3 results), confirm (take 4 refreshes) (choose now option s))
