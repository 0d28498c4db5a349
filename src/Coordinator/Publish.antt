-- ===== src/Coordinator/Publish.antt =====
-- What a read may publish, whatever the bus answers.
use home_assistant_dess_moni.Base.{
  ◌≡◌, refl, arith, false, [], ◌∷◌, Option, none, some, Bool-cases, Option-cases, ltb, inl, inr,
  ◌⊎◌, ap, sym, string_eq, pair_eq,
}
use home_assistant_dess_moni.Base.Float.{Float}
use home_assistant_dess_moni.Base.Dict.{contains}
use home_assistant_dess_moni.Values.{Value, Section}
use home_assistant_dess_moni.Coordinator.Failure.{on_failure, resolve_lem}
use home_assistant_dess_moni.Coordinator.Fetch.{
  Coordinator, Pair, is_error_result, is_nak_result, is_rejected, is_unsupported, accept_result,
  last_known, Round, done, again, attempt, give_up, retry, fetch_with_retry,
}

abbrev pub HasNoError : Section → Type 0
HasNoError section = contains "error" section ≡ false

Round-cases : (x : Round) → (x ≡ again) ⊎ ((r : Section) × (x ≡ done r))
Round-cases (done r) = inr (r, refl)
Round-cases again = inl refl

module _ (F : Float) (float : Value → Option F.Real) where
  -- An answer that may replace what was known: no error, no NAK, and plausible.
  pub record IsGood (pair : Pair) (result : Section) : Type 0 where
    pub no_nak : is_nak_result result ≡ false
    pub no_error : is_error_result result ≡ false
    pub plausible : is_rejected F float pair result ≡ false

  is_error_result-HasNoError : (r : Section) → is_error_result r ≡ false → HasNoError r
  unfolding is_error_result
  is_error_result-HasNoError [] h = refl
  is_error_result-HasNoError (x ∷ r) h = ground arith

  -- A section that is returned is the good answer itself, or what was known and holds no error.
  pub data Published (pair : Pair) (prev : Section) (first second : Option Section)
      : Section → Type 0 where
    fresh :
        {r : Section}
        → (first ≡ some r) ⊎ (second ≡ some r)
        → IsGood pair r
        → Published pair prev first second r
    known : HasNoError prev → Published pair prev first second prev
    empty : Published pair prev first second []

  Published-last_known :
      (pair : Pair) (prev : Section) (first second : Option Section)
      → Published pair prev first second (last_known prev)
  unfolding last_known
  Published-last_known pair prev first second = elim (Bool-cases (contains "error" prev)) [
    | inl e ↦ rw (e, last_known) empty
    | inr e ↦ rw (e, last_known) (known e)
  ]

  accepted-IsGood :
      (s : Coordinator) (pair : Pair) (r : Section) {c : Section}
      → (accept_result F float s pair r).0 ≡ some c
      → IsGood pair r × (c ≡ r)
  unfolding accept_result
  accepted-IsGood s pair r h = ground arith

  attempt-done :
      (s : Coordinator) (pair : Pair) (prev : Section) (reply : Option Section) {r : Section}
      → (attempt F float s pair prev reply).0 ≡ done r
      → (r ≡ last_known prev) ⊎ ((reply ≡ some r) × IsGood pair r)
  unfolding attempt
  attempt-done s pair prev none h = cc
  attempt-done s pair prev (some result) {r} h =
      elim (Option-cases (accept_result F float s pair result).0) [
        | inl e ↦ inl (ground arith)
        | inr (c, e) ↦ elim (Bool-cases (is_nak_result result)) [
          | inl n ↦ inl (ground arith)
          | inr n ↦
              let good = accepted-IsGood s pair result e in
              let same : r ≡ result = ground arith in inr (ap some (sym same), rw same good.0)
        ]
      ]

  Published-give_up :
      (s : Coordinator) (pair : Pair) (prev : Section) (first second : Option Section)
      → Published pair prev first second (give_up s pair prev).0
  unfolding give_up
  Published-give_up s pair prev first second =
      let (n, failures) = on_failure s.failures pair.0 pair.1 in
      elim (Bool-cases (ltb n failures.max_consecutive)) [
        | inl e ↦
            rw (resolve_lem failures n (last_known prev), e)
              (Published-last_known pair prev first second)
        | inr e ↦ rw (resolve_lem failures n (last_known prev), e) empty
      ]

  Published-done :
      (pair : Pair) (prev : Section) (first second : Option Section) (r : Section)
      → (r ≡ last_known prev) ⊎ (((first ≡ some r) ⊎ (second ≡ some r)) × IsGood pair r)
      → Published pair prev first second r
  Published-done pair prev first second r (inl e) =
      rw e (Published-last_known pair prev first second)
  Published-done pair prev first second r (inr (from, good)) = fresh from good

  Published-retry :
      (s : Coordinator) (pair : Pair) (prev : Section) (first second : Option Section)
      → Published pair prev first second (retry F float s pair prev second).0
  unfolding retry
  Published-retry s pair prev first second =
      elim (Round-cases (attempt F float s pair prev second).0) [
        | inl e ↦
            rw (retry, e)
              (Published-give_up (attempt F float s pair prev second).1 pair prev first second)
        | inr (r, e) ↦
            rw (retry, e)
              (Published-done pair prev first second r
                (ground (arith, attempt-done s pair prev second e)))
      ]

  -- Whatever the bus answers, a read returns one of its answers, which then is no error, no NAK and
  -- plausible, or the section that was published last, which then holds no error, or nothing.
  pub fetch-Published :
      (s : Coordinator) (pair : Pair) (prev : Section) (first second : Option Section)
      → Published pair prev first second (fetch_with_retry F float s pair prev first second).0
  unfolding fetch_with_retry
  fetch-Published s pair prev first second = elim (Bool-cases (is_unsupported s pair)) [
    | inl u ↦ rw u (Published-last_known pair prev first second)
    | inr u ↦ elim (Round-cases (attempt F float s pair prev first).0) [
      | inl e ↦
          rw (u, e) (Published-retry (attempt F float s pair prev first).1 pair prev first second)
      | inr (r, e) ↦
          rw (u, e)
            (Published-done pair prev first second r
              (ground (arith, attempt-done s pair prev first e)))
    ]
  ]
