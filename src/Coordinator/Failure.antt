-- ===== src/Coordinator/Failure.antt =====
-- `FailureTracker`: consecutive failures for each device and command, and the verdict.
use home_assistant_dess_moni.Base.{
  ℕ, ◌+◌, String, [], ◌∷◌, if◌then◌else◌, ltb, string_eq, ◌≡◌, arith, refl, ◌==◌, ==_refl, ◌&&◌,
}
use home_assistant_dess_moni.Base.Dict.{Dict, lookup_or, insert, lookup_or-insert}
use text.Mathlib.TextEquality.{eq_iff}
use home_assistant_dess_moni.Values.{Section}

pub data FailureOutcome : Type 0 where
  freeze no_data unavailable : FailureOutcome

pub record FailureTracker : Type 0 where
  pub max_consecutive : ℕ
  pub counts : Dict String (Dict String ℕ)

unfoldable pub count : FailureTracker → String → String → ℕ
count t device command = lookup_or command 0 (lookup_or device [] t.counts)

-- Both methods write one count: `self._counts.setdefault(device, {})[command] = n`.
abbrev pub set_count : FailureTracker → String → String → ℕ → FailureTracker
set_count t device command n = record t {
  counts = insert device (insert command n (lookup_or device [] t.counts)) t.counts;
}

unfoldable pub on_success : FailureTracker → String → String → FailureTracker
on_success t device command = set_count t device command 0

unfoldable pub on_failure : FailureTracker → String → String → ℕ × FailureTracker
on_failure t device command =
    let n = lookup_or command 0 (lookup_or device [] t.counts) + 1 in
    (n, set_count t device command n)

-- An empty section is falsy, as `None` is.
unfoldable pub resolve : FailureTracker → ℕ → Section → Section × FailureOutcome
resolve t n [] = ([], if ltb n t.max_consecutive then no_data else unavailable)
resolve t n (entry ∷ rest) =
    if ltb n t.max_consecutive then (entry ∷ rest, freeze) else ([], unavailable)

-- A write of one count is read back, and every other count is left alone.
pub count-set :
    (t : FailureTracker) (d c d' c' : String) (n : ℕ)
    → count (set_count t d c n) d' c' ≡ (if d == d' && c == c' then n else count t d' c')
unfolding count
count-set t d c d' c' n =
    let row = insert c n (lookup_or d [] t.counts) in
    ground (
      arith,
      lookup_or-insert d d' [] row t.counts,
      lookup_or-insert c c' 0 n (lookup_or d [] t.counts),
      eq_iff d d',
    )

pub count-set_self : (t : FailureTracker) (d c : String) (n : ℕ) → count (set_count t d c n) d c ≡ n
count-set_self t d c n = rw (count-set t d c d c n) (ground (arith, ==_refl d, ==_refl c))

pub count-on_success : (t : FailureTracker) (d c : String) → count (on_success t d c) d c ≡ 0
unfolding on_success
count-on_success t d c = count-set_self t d c 0

pub count-on_failure :
    (t : FailureTracker) (d c : String)
    → (count (on_failure t d c).1 d c ≡ count t d c + 1) × ((on_failure t d c).0 ≡ count t d c + 1)
unfolding on_failure count
count-on_failure t d c = (count-set_self t d c _, refl)

-- The verdict, for any section that was known.
pub resolve_lem :
    (t : FailureTracker) (n : ℕ) (known : Section)
    → (resolve t n known).0 ≡ (if ltb n t.max_consecutive then known else [])
unfolding resolve
resolve_lem t n [] = ground arith
resolve_lem t n (entry ∷ rest) = ground arith
