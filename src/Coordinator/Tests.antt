-- ===== src/Coordinator/Tests.antt =====
-- Runs of the read with its retry, with a float that counts tenths.
use home_assistant_dess_moni.Base.{
  ℕ, ◌+◌, ◌-◌, ◌*◌, ◌/◌, ◌^◌, ◌≡◌, refl, true, false, [], ◌∷◌, Option, none, some, leb, ltb,
  if◌then◌else◌, inr, string_eq, pair_eq,
}
use home_assistant_dess_moni.Base.Text.{Text, codes}
use home_assistant_dess_moni.Base.Float.{Float}
use home_assistant_dess_moni.Base.Dict.{lookup}
use home_assistant_dess_moni.Values.{Value, text, int, flag, decimal, mode, ints, texts, Section}
use home_assistant_dess_moni.Sanity.{
  is_plausible_qpigs, is_plausible_battery_voltage, is_plausible_battery_current, float_field,
}
use home_assistant_dess_moni.Coordinator.Fetch.{
  Coordinator, Pair, fetch_with_retry, is_unsupported, is_member, is_nak_result, is_error_result,
  is_rejected,
}
use home_assistant_dess_moni.Coordinator.Publish.{Published, fetch-Published, IsGood}
use home_assistant_dess_moni.Coordinator.Outage.{outage, outage_lem, recovery, failures_of}

abbrev tenths : Float
tenths = record {
  Real = ℕ;
  le = leb;
  add = λ a b. a + b;
  sub = λ a b. a - b;
  mul = λ a b. a * b / 10;
  div = λ a b. a;
  neg = λ a. 0;
  lit = λ n k. n * 10 / 10 ^ k;
  round2 = λ a. a;
}

-- Whole numbers only.
abbrev whole : ℕ → Text → ℕ
whole n [] = n * 10
whole n (c ∷ s) = whole (n * 10 + (c - b'0')) s

abbrev float : Value → Option ℕ
float (text t) = some (whole 0 t)
float (int n) = none
float (flag b) = none
float (decimal n k) = none
float (mode m) = none
float (ints ns) = none
float (texts ts) = none

abbrev polled : Pair
polled = ("bus", "QPIGS")

abbrev idle : Coordinator
idle = record {
  failures = record { max_consecutive = 6; counts = [] };
  unsupported = [];
  nak_counts = [];
}

abbrev good : Section
good = ("battery_voltage", text (codes "52")) ∷ []

abbrev nak : Section
nak = ("error", text (codes "NAK response")) ∷ []

fetch-Published_example :
    Published tenths float polled good none
      (some nak)
      (fetch_with_retry tenths float idle polled good none (some nak)).0
fetch-Published_example = fetch-Published tenths float idle polled good none (some nak)

idle_polls : is_unsupported idle polled ≡ false
unfolding is_unsupported is_member
idle_polls = refl

good-IsGood : IsGood tenths float polled good
unfolding is_nak_result is_error_result is_rejected is_plausible_qpigs is_plausible_battery_voltage
    is_plausible_battery_current float_field
good-IsGood = record { no_nak = refl; no_error = refl; plausible = refl }

outage_lem_example :
    let (shown', s') = outage tenths float 6 idle polled good in
    (shown' ≡ (if ltb (failures_of idle polled + 6) 6 then good else []))
    × (failures_of s' polled ≡ failures_of idle polled + 6)
outage_lem_example = outage_lem tenths float 5 idle polled good idle_polls refl

recovery_example :
    let (shown', s') = fetch_with_retry tenths float idle polled [] none (some good) in
    (shown' ≡ good) × (failures_of s' polled ≡ 0) × (lookup polled s'.nak_counts ≡ none)
recovery_example =
    recovery tenths float idle polled [] good none (some good) idle_polls good-IsGood
      (inr (refl, refl))

nak_lem : is_nak_result nak ≡ true
unfolding is_nak_result
nak_lem = refl
