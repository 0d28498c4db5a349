-- ===== src/Pi18/Numbers.antt =====
-- `int(text)`, and the f-strings of numbers in api/decoders/pi18.py. `int` refuses more than 4300
-- digits, and a quotient by 10.0 is exact to the tenth below 2 ^ 48: fields of an answer have four digits.
use home_assistant_dess_moni.Base.{
  ℕ, suc, ◌+◌, ◌-◌, ◌*◌, ◌/◌, ◌%◌, Bool, true, false, not, ◌&&◌, [], ◌∷◌, ◌++◌, Option, none, some,
  eqb, leb,
}
use home_assistant_dess_moni.Base.Text.{Text, codes, strip}
use home_assistant_dess_moni.Base.Int.{ℤ, pos, negsuc, neg, abs}
use home_assistant_dess_moni.Base.Decimal.{decimal, padded}

-- Digits, with single underscores between them; `after_digit` says what stands in front.
unfoldable pub read_int : ℕ → Bool → Text → Option ℕ
read_int value after_digit [] = elim after_digit [ true ↦ some value | false ↦ none ]
read_int value after_digit (c ∷ s) = elim (leb b'0' c && leb c b'9') [
  | true ↦ read_int (value * 10 + (c - b'0')) true s
  | false ↦ elim (eqb c b'_' && after_digit) [ true ↦ read_int value false s | false ↦ none ]
]

abbrev signed : (ℕ → ℤ) → Option ℕ → Option ℤ
signed f none = none
signed f (some n) = some (f n)

unfoldable pub signed_int : Text → Option ℤ
unfolding read_int
signed_int [] = none
signed_int (c ∷ s) = elim (eqb c b'-') [
  | true ↦ signed (λ n. neg (pos n)) (read_int 0 false s)
  | false ↦ elim (eqb c b'+') [
    | true ↦ signed pos (read_int 0 false s)
    | false ↦ signed pos (read_int 0 false (c ∷ s))
  ]
]

-- `int(token)`, `none` for its ValueError.
unfoldable pub parse_int : Text → Option ℤ
unfolding signed_int
parse_int token = signed_int (strip token)

unfoldable pub safe_int : Text → ℤ → ℤ
unfolding parse_int
safe_int token default = elim (parse_int token) [ none ↦ default | some n ↦ n ]

-- `bool(n)`
abbrev pub is_nonzero : ℤ → Bool
is_nonzero n = not (eqb (abs n) 0)

-- A sign in front of the text of a negative number.
abbrev with_sign : (ℕ → Text) → (ℕ → Text) → ℤ → Text
with_sign positive negative (pos n) = positive n
with_sign positive negative (negsuc n) = b'-' ∷ negative (suc n)

-- `f"{n}"`
unfoldable pub int_text : ℤ → Text
int_text = with_sign decimal decimal

-- `f"{n:0{width}d}"`: the sign counts.
unfoldable pub int_padded : ℕ → ℤ → Text
int_padded width = with_sign (padded width) (padded (width - 1))

abbrev point_one : ℕ → Text
point_one n = decimal (n / 10) ++ b'.' ∷ (b'0' + n % 10) ∷ []

-- `f"{n / 10.0:.1f}"`
unfoldable pub tenths_text : ℤ → Text
tenths_text = with_sign point_one point_one

-- `f"{n / 10.0:.2f}"`
unfoldable pub tenths_text_2 : ℤ → Text
unfolding tenths_text
tenths_text_2 n = tenths_text n ++ codes "0"

-- `f"{n:.1f}"`
unfoldable pub whole_text : ℤ → Text
unfolding int_text
whole_text n = int_text n ++ codes ".0"
