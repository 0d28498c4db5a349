-- ===== src/Decode/Tokens.antt =====
-- Words joined by blanks, as an inverter sends them, are what `split` gives back.
use home_assistant_dess_moni.Base.{
  ℕ, zero, suc, ◌≡◌, refl, ap, sym, ◌∙◌, arith, Bool, true, false, not, ◌&&◌, ◌||◌, List, [], ◌∷◌,
  ◌++◌, String, Option, none, some, All, append-nil, append_assoc, eqb, get_elem?, get_or,
  string_eq, ◌==◌,
}
use home_assistant_dess_moni.Base.Text.{Text, is_space, split, split_from}
use home_assistant_dess_moni.Base.Dict.{lookup}
use home_assistant_dess_moni.Values.{Value, text, flag}
use home_assistant_dess_moni.Decode.Voltronic.{zip_fields, flags}

-- A word without white space; `word_of c w` has the characters `c ∷ w`.
abbrev pub IsWord : Text → Type 0
IsWord [] = ⊥
IsWord (c ∷ w) = All (λ d. is_space d ≡ false) (c ∷ w)

-- `" ".join(words)`
abbrev pub join : List Text → Text
join [] = []
join (w ∷ []) = w
join (w ∷ v ∷ words) = w ++ (0x20 ∷ join (v ∷ words))

split_from-word :
    (word w rest : Text)
    → All (λ d. is_space d ≡ false) w
    → split_from word (w ++ rest) ≡ split_from (word ++ w) rest
unfolding split_from
split_from-word word [] rest h = ap (λ (t : Text). split_from t rest) (sym (append-nil word))
split_from-word word (c ∷ w) rest (h, hs) =
    rw (split_from, h)
      (split_from-word (word ++ (c ∷ [])) w rest hs
        ∙ ap (λ (t : Text). split_from t rest) (append_assoc word (c ∷ []) w))

split_from-last : (w : Text) → IsWord w → split_from [] w ≡ w ∷ []
unfolding split_from
split_from-last [] h = absurd h
split_from-last (c ∷ w) h =
    ap (λ (t : Text). split_from [] t) (sym (append-nil (c ∷ w))) ∙ split_from-word [] (c ∷ w) [] h

split_from-next :
    (w rest : Text) → IsWord w → split_from [] (w ++ (0x20 ∷ rest)) ≡ w ∷ split_from [] rest
unfolding split_from is_space
split_from-next [] rest h = absurd h
split_from-next (c ∷ w) rest h = split_from-word [] (c ∷ w) (0x20 ∷ rest) h

-- Words that are joined by single blanks are split again.
pub split-join : (words : List Text) → All IsWord words → split (join words) ≡ words
unfolding split
split-join [] h = refl
split-join (w ∷ []) (h, hs) = split_from-last w h
split-join (w ∷ v ∷ words) (h, hs) =
    split_from-next w (join (v ∷ words)) h
    ∙ ap (λ (t : List Text). w ∷ t) (split-join (v ∷ words) hs)

-- `name in names`
abbrev pub is_named : String → List String → Bool
is_named name [] = false
is_named name (f ∷ fields) = f == name || is_named name fields

abbrev pub all_distinct : List String → Bool
all_distinct [] = true
all_distinct (f ∷ fields) = not (is_named f fields) && all_distinct fields

pub get_elem?-is_named :
    (fields : List String) (i : ℕ) (f : String)
    → get_elem? fields i ≡ some f
    → is_named f fields ≡ true
get_elem?-is_named [] i f h = ground arith
get_elem?-is_named (g ∷ fields) zero f h = ground (arith, string_eq.beq_iff g f)
get_elem?-is_named (g ∷ fields) (suc i) f h = ground (arith, get_elem?-is_named fields i f h)

-- The value at the place of a field of the table.
pub zip_fields-lookup :
    (fields : List String) (values : List Text) (i : ℕ) (f : String)
    → all_distinct fields ≡ true
    → get_elem? fields i ≡ some f
    → lookup f (zip_fields fields values)
      ≡ (elim (get_elem? values i) as (λ _. Option Value) [ some v ↦ some (text v) | none ↦ none ])
unfolding zip_fields
zip_fields-lookup [] values i f d h = ground arith
zip_fields-lookup (g ∷ fields) [] i f d h = refl
zip_fields-lookup (g ∷ fields) (v ∷ values) zero f d h = ground (arith, string_eq.beq_iff g f)
zip_fields-lookup (g ∷ fields) (v ∷ values) (suc i) f d h = ground (
  arith,
  string_eq.beq_iff g f,
  ap (λ (n : String). is_named n fields) {x = g} {y = f},
  get_elem?-is_named fields i f,
  zip_fields-lookup fields values i f,
)

pub zip_fields-absent :
    (fields : List String) (values : List Text) (f : String)
    → is_named f fields ≡ false
    → lookup f (zip_fields fields values) ≡ none
unfolding zip_fields
zip_fields-absent [] values f h = refl
zip_fields-absent (g ∷ fields) [] f h = refl
zip_fields-absent (g ∷ fields) (v ∷ values) f h = ground (arith, zip_fields-absent fields values f)

pub flags-lookup :
    (fields : List String) (bits : Text) (i : ℕ) (f : String)
    → all_distinct fields ≡ true
    → get_elem? fields i ≡ some f
    → lookup f (flags fields bits) ≡ some (flag (eqb (get_or bits i b'0') b'1'))
unfolding flags
flags-lookup [] bits i f d h = ground arith
flags-lookup (g ∷ fields) [] zero f d h = ground (arith, string_eq.beq_iff g f)
flags-lookup (g ∷ fields) (b ∷ bits) zero f d h = ground (arith, string_eq.beq_iff g f)
flags-lookup (g ∷ fields) [] (suc i) f d h = ground (
  arith,
  string_eq.beq_iff g f,
  ap (λ (n : String). is_named n fields) {x = g} {y = f},
  get_elem?-is_named fields i f,
  flags-lookup fields [] i f,
)
flags-lookup (g ∷ fields) (b ∷ bits) (suc i) f d h = ground (
  arith,
  string_eq.beq_iff g f,
  ap (λ (n : String). is_named n fields) {x = g} {y = f},
  get_elem?-is_named fields i f,
  flags-lookup fields bits i f,
)

pub flags-absent :
    (fields : List String) (bits : Text) (f : String)
    → is_named f fields ≡ false
    → lookup f (flags fields bits) ≡ none
unfolding flags
flags-absent [] bits f h = refl
flags-absent (g ∷ fields) [] f h = ground (arith, flags-absent fields [] f)
flags-absent (g ∷ fields) (b ∷ bits) f h = ground (arith, flags-absent fields bits f)
