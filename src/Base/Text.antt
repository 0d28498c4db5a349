-- ===== src/Base/Text.antt =====
-- A Python `str` that the program walks through, as the list of its code points, and the methods
-- of `str` that the program calls. The texts are ASCII: they come from `decode("ascii", "ignore")`.
use Prim.Native.Nat.{ℕ, ◌-◌}
use Prim.Native.Char.{code}
use Prim.Native.String.{String}
use mathlib.Core.Bool.{Bool, true, false, not, ◌&&◌, ◌||◌}
use mathlib.Core.List.{List, [], ◌∷◌, ◌++◌, map, reverse}
use home_assistant_dess_moni.Base.Tests.{eqb, leb, if◌then◌else◌}
use home_assistant_dess_moni.Base.Lists.{keep_if}

abbrev pub Text : Type 0
Text = List ℕ

-- The text of a literal.
abbrev pub codes : String → Text
codes String.[] = []
codes (String.◌∷◌ c s) = code c ∷ codes s

-- `s.startswith(prefix)`
abbrev pub starts_with : Text → Text → Bool
starts_with s [] = true
starts_with [] (p ∷ ps) = false
starts_with (c ∷ s) (p ∷ ps) = eqb c p && starts_with s ps

-- `needle in s`
abbrev pub contains_text : Text → Text → Bool
contains_text needle [] = starts_with [] needle
contains_text needle (c ∷ s) = starts_with (c ∷ s) needle || contains_text needle s

-- ASCII white space, as `str.split` and `str.strip` see it.
unfoldable pub is_space : ℕ → Bool
is_space c = leb 9 c && leb c 13 || leb 28 c && leb c 32

unfoldable pub lstrip : Text → Text
unfolding is_space
lstrip [] = []
lstrip (c ∷ s) = if is_space c then lstrip s else c ∷ s

unfoldable pub strip : Text → Text
unfolding lstrip
strip s = reverse (lstrip (reverse (lstrip s)))

-- A word and the words behind it: `word` holds what has been read of it.
abbrev close_word : Text → List Text → List Text
close_word [] words = words
close_word (c ∷ w) words = (c ∷ w) ∷ words

unfoldable pub split_from : Text → Text → List Text
unfolding is_space
split_from word [] = close_word word []
split_from word (c ∷ s) = elim (is_space c) [
  | true ↦ close_word word (split_from [] s)
  | false ↦ split_from (word ++ (c ∷ [])) s
]

-- `s.split()`
unfoldable pub split : Text → List Text
unfolding split_from
split = split_from []

unfoldable pub split_at_from : ℕ → Text → Text → List Text
split_at_from sep word [] = word ∷ []
split_at_from sep word (c ∷ s) = elim (eqb c sep) [
  | true ↦ word ∷ split_at_from sep [] s
  | false ↦ split_at_from sep (word ++ (c ∷ [])) s
]

-- `s.split(sep)` for a separator of one character
unfoldable pub split_at : ℕ → Text → List Text
unfolding split_at_from
split_at sep = split_at_from sep []

-- `s.replace(c, "")` for one character
unfoldable pub without : ℕ → Text → Text
without c = keep_if (λ d. not (eqb d c))

-- `s.upper()`
unfoldable pub upper : Text → Text
upper = map (λ c. if leb b'a' c && leb c b'z' then c - 32 else c)
