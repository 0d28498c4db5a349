-- ===== src/Base/Bools.antt =====
-- Taking a true conjunction apart, and equality of Booleans as a test.
use mathlib.Core.Path.{◌≡◌, refl, sym}
use mathlib.Core.Bool.{Bool, true, false, not, ◌&&◌}
use native.Mathlib.Omega.{arith}

abbrev pub same : Bool → Bool → Bool
same true b = b
same false b = not b

pub eq_of_same : (a b : Bool) → same a b ≡ true → a ≡ b
eq_of_same true b h = sym h
eq_of_same false b h = ground arith

pub and_left : (a b : Bool) → (a && b) ≡ true → a ≡ true
and_left true b h = refl
and_left false b h = h

pub and_right : (a b : Bool) → (a && b) ≡ true → b ≡ true
and_right true b h = h
and_right false b h = ground arith

pub eq_false : (a : Bool) → not a ≡ true → a ≡ false
eq_false true h = ground arith
eq_false false h = refl
