-- ===== src/Coordinator/Outage.antt =====
-- What repeated failures and NAKs do to a command that used to answer.
use home_assistant_dess_moni.Base.{
  String, ℕ, zero, suc, ◌+◌, ◌≡◌, refl, arith, true, false, [], Option, none, some, if◌then◌else◌,
  ltb, inl, inr, ap, ==_refl, pair_eq, string_eq, ◌⊎◌,
}
use home_assistant_dess_moni.Base.Float.{Float}
use home_assistant_dess_moni.Base.Dict.{lookup, lookup_or, lookup_or-insert, lookup-erase}
use home_assistant_dess_moni.Values.{Value, Section}
use home_assistant_dess_moni.Coordinator.Failure.{
  FailureTracker, count, on_failure, count-on_failure, resolve_lem, count-on_success, on_success,
}
use home_assistant_dess_moni.Coordinator.Fetch.{
  Coordinator, Pair, is_nak_result, is_unsupported, is_member, note_nak, clear_nak_streak,
  accept_result, last_known, done, again, attempt, give_up, retry, fetch_with_retry,
}
use home_assistant_dess_moni.Coordinator.Publish.{HasNoError, IsGood}

abbrev pub failures_of : Coordinator → Pair → ℕ
failures_of s pair = count s.failures pair.0 pair.1

on_failure-max :
    (t : FailureTracker) (d c : String) → (on_failure t d c).1.max_consecutive ≡ t.max_consecutive
unfolding on_failure
on_failure-max t d c = refl

give_up_lem :
    (s : Coordinator) (pair : Pair) (prev : Section)
    → HasNoError prev
    → ((give_up s pair prev).0
        ≡ (if ltb (failures_of s pair + 1) s.failures.max_consecutive then prev else []))
      × (failures_of (give_up s pair prev).1 pair ≡ failures_of s pair + 1)
      × ((give_up s pair prev).1.unsupported ≡ s.unsupported)
      × ((give_up s pair prev).1.failures.max_consecutive ≡ s.failures.max_consecutive)
unfolding give_up last_known
give_up_lem s pair prev h =
    let (n, failures) = on_failure s.failures pair.0 pair.1 in
    ground (
      arith,
      resolve_lem failures n prev,
      count-on_failure s.failures pair.0 pair.1,
      on_failure-max s.failures pair.0 pair.1,
    )

give_up-supported :
    (s : Coordinator) (pair : Pair) (prev : Section)
    → is_unsupported s pair ≡ false
    → HasNoError prev
    → is_unsupported (give_up s pair prev).1 pair ≡ false
unfolding is_unsupported
give_up-supported s pair prev u h = rw ((give_up_lem s pair prev h).2) u

accepted_lem :
    (s : Coordinator) (pair : Pair) (result : Section)
    → (result ≡ result)
      × (count (on_success s.failures pair.0 pair.1) pair.0 pair.1 ≡ 0)
      × (lookup pair (clear_nak_streak s pair).nak_counts ≡ none)
unfolding clear_nak_streak
accepted_lem s pair result = (
  refl,
  count-on_success s.failures pair.0 pair.1,
  ground (arith, lookup-erase pair pair s.nak_counts, ==_refl pair),
)

module _ (F : Float) (float : Value → Option F.Real) where
  -- Cycles in which the command is not answered at all; each is given what the one before published.
  abbrev pub outage : ℕ → Coordinator → Pair → Section → Section × Coordinator
  outage zero s pair shown = (shown, s)
  outage (suc n) s pair shown =
      let (shown', s') = fetch_with_retry F float s pair shown none none in outage n s' pair shown'

  attempt-none :
      (s : Coordinator) (pair : Pair) (shown : Section)
      → attempt F float s pair shown none ≡ (again, s)
  unfolding attempt
  attempt-none s pair shown = refl

  silent :
      (s : Coordinator) (pair : Pair) (shown : Section)
      → is_unsupported s pair ≡ false
      → fetch_with_retry F float s pair shown none none ≡ give_up s pair shown
  unfolding fetch_with_retry retry attempt
  silent s pair shown u = rw u refl

  -- A supported command that is not answered in one or more cycles, and that shows a section
  -- without an error, keeps what it showed until its failures reach the limit, and shows
  -- nothing from then on. Each such cycle counts one failure.
  pub outage_lem :
      (n : ℕ) (s : Coordinator) (pair : Pair) (shown : Section)
      → is_unsupported s pair ≡ false
      → HasNoError shown
      → let (shown', s') = outage (suc n) s pair shown in
        (shown'
          ≡ (if ltb (failures_of s pair + suc n) s.failures.max_consecutive then shown else []))
        × (failures_of s' pair ≡ failures_of s pair + suc n)
  outage_lem zero s pair shown u h =
      ground (arith, silent s pair shown u, give_up_lem s pair shown h)
  outage_lem (suc n) s pair shown u h =
      let t = (give_up s pair shown).1 in
      let shown' = (give_up s pair shown).0 in
      let u' : is_unsupported t pair ≡ false = give_up-supported s pair shown u h in
      let h' : HasNoError shown' = ground (arith, give_up_lem s pair shown h) in
      ground (
        arith,
        ap (λ (r : Section × Coordinator). outage (suc n) r.1 pair r.0) (silent s pair shown u),
        give_up_lem s pair shown h,
        outage_lem n t pair shown' u' h',
      )

  abbrev accepted : Coordinator → Pair → Coordinator
  accepted s pair =
      let cleared = clear_nak_streak s pair in
      record cleared { failures = on_success cleared.failures pair.0 pair.1 }

  attempt_good :
      (s : Coordinator) (pair : Pair) (shown result : Section)
      → IsGood F float pair result
      → attempt F float s pair shown (some result) ≡ (done result, accepted s pair)
  unfolding attempt accept_result
  attempt_good s pair shown result good = ground arith

  accepted_at_once :
      (s : Coordinator) (pair : Pair) (shown result : Section) (second : Option Section)
      → is_unsupported s pair ≡ false
      → IsGood F float pair result
      → fetch_with_retry F float s pair shown (some result) second ≡ (result, accepted s pair)
  unfolding fetch_with_retry
  accepted_at_once s pair shown result second u good =
      ground (arith, attempt_good s pair shown result good)

  accepted_later :
      (s : Coordinator) (pair : Pair) (shown result : Section)
      → is_unsupported s pair ≡ false
      → IsGood F float pair result
      → fetch_with_retry F float s pair shown none (some result) ≡ (result, accepted s pair)
  unfolding fetch_with_retry retry
  accepted_later s pair shown result u good =
      ground (arith, attempt-none s pair shown, attempt_good s pair shown result good)

  -- For a supported command, an answer that is good is published, ends the run of failures and
  -- forgets the NAKs, whether it comes at once or after a first round without an answer.
  pub recovery :
      (s : Coordinator) (pair : Pair) (shown result : Section) (first second : Option Section)
      → is_unsupported s pair ≡ false
      → IsGood F float pair result
      → (first ≡ some result) ⊎ ((first ≡ none) × (second ≡ some result))
      → let (shown', s') = fetch_with_retry F float s pair shown first second in
        (shown' ≡ result) × (failures_of s' pair ≡ 0) × (lookup pair s'.nak_counts ≡ none)
  unfolding clear_nak_streak
  recovery s pair shown result first second u good (inl p) =
      rw (p, accepted_at_once s pair shown result second u good) (accepted_lem s pair result)
  recovery s pair shown result first second u good (inr (p, q)) =
      rw (p, q, accepted_later s pair shown result u good) (accepted_lem s pair result)

  -- A command that is answered by a NAK in both rounds, and that shows a section without an
  -- error, is polled no more: it is marked as unsupported, keeps what it showed, and no failure
  -- is counted.
  pub double_nak :
      (s : Coordinator) (pair : Pair) (shown first second : Section)
      → HasNoError shown
      → is_nak_result first ≡ true
      → is_nak_result second ≡ true
      → let (shown', s') = fetch_with_retry F float s pair shown (some first) (some second) in
        (shown' ≡ shown) × (is_unsupported s' pair ≡ true) × (s'.failures ≡ s.failures)
  unfolding fetch_with_retry retry attempt note_nak is_unsupported is_member last_known
  double_nak s pair shown first second h p q = ground (
    arith,
    lookup_or-insert pair pair 0 (lookup_or pair 0 s.nak_counts + 1) s.nak_counts,
    ==_refl pair,
  )
