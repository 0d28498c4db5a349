-- ===== src/Decode/Answers.antt =====
-- What the decoded sections say of the answers.
use home_assistant_dess_moni.Base.{
  take, ◌||◌, ℕ, ◌≡◌, refl, ap, sym, ◌∙◌, arith, Bool, true, false, not, ◌&&◌, ◌||◌, List, [], ◌∷◌,
  String, Option, none, some, All, if◌then◌else◌, eqb, get_elem?, get_or, string_eq, list_eq,
  nat_eq, ◌==◌, Bool-cases, inl, inr, keep_if,
}
use home_assistant_dess_moni.Base.Text.{Text, codes, split, contains_text, starts_with, upper}
use home_assistant_dess_moni.Base.Dict.{lookup, lookup-insert}
use home_assistant_dess_moni.Values.{Value, text, flag, int, decimal, mode, ints, texts, Section}
use home_assistant_dess_moni.Coordinator.Fetch.{is_nak_result, is_error_result}
use home_assistant_dess_moni.Decode.Fields.{
  qpigs_fields, qpigs2_fields, qpiws_fields, qpiri_fields, qbeqi_fields,
}
use home_assistant_dess_moni.Decode.Bits.{clean_bits, is_bit}
use home_assistant_dess_moni.Decode.Voltronic.{
  zip_fields, flags, cleaned, decode_qpigs, decode_qpigs2, decode_qpiws, decode_qpiri, decode_qmod,
  decode_qmn, decode_qid, decode_qflag, decode_qvfw, decode_qbeqi, decode_command, decode_clean,
  transform_from,
}
use home_assistant_dess_moni.Decode.Tokens.{
  IsWord, join, split-join, is_named, zip_fields-lookup, zip_fields-absent, flags-lookup,
  flags-absent,
}

abbrev pub binary_digits : Text → Text
binary_digits = keep_if (λ c. eqb c b'0' || eqb c b'1')

-- What is published for a word of a QPIGS answer: the two fields of status bits keep their binary
-- digits only, up to their width.
abbrev pub shown : String → Text → Text
shown f v =
    if "device_status_bits_b10_b8" == f
    then take 3 (binary_digits v)
    else if "device_status_bits_b7_b0" == f
    then take 8 (binary_digits v)
    else v

cleaned-other :
    (key f : String) (width : ℕ) (section : Section) (found : Option Value)
    → key == f ≡ false
    → lookup f (cleaned key width section found) ≡ lookup f section
cleaned-other key f width section none e = refl
cleaned-other key f width section (some (text raw)) e =
    ground (arith, lookup-insert key f (text (clean_bits raw width)) section)
cleaned-other key f width section (some (flag b)) e = refl
cleaned-other key f width section (some (int n)) e = refl
cleaned-other key f width section (some (decimal n k)) e = refl
cleaned-other key f width section (some (mode m)) e = refl
cleaned-other key f width section (some (ints ns)) e = refl
cleaned-other key f width section (some (texts ts)) e = refl

cleaned_self :
    (key f : String) (width : ℕ) (section : Section) (v : Text)
    → key == f ≡ true
    → lookup f section ≡ some (text v)
    → lookup f (cleaned key width section (lookup key section)) ≡ some (text (clean_bits v width))
cleaned_self key f width section v e h =
    let found : lookup key section ≡ some (text v) =
      ap (λ (k : String). lookup k section) ((string_eq.beq_iff key f).0 e) ∙ h in
    rw found (ground (arith, lookup-insert key f (text (clean_bits v width)) section))

-- Where a QPIGS answer consists of words without white space, joined by single blanks, each
-- word is found under the name at its place in the table; of the two words of status bits the
-- first binary digits are kept, three and eight at most.
pub qpigs-field :
    (words : List Text) (i : ℕ) (f : String) (v : Text)
    → All IsWord words
    → get_elem? qpigs_fields i ≡ some f
    → get_elem? words i ≡ some v
    → lookup f (decode_qpigs (join words)) ≡ some (text (shown f v))
unfolding decode_qpigs clean_bits is_bit
qpigs-field words i f v h p q =
    let result = zip_fields qpigs_fields (split (join words)) in
    let b10 : String = "device_status_bits_b10_b8" in
    let b7 : String = "device_status_bits_b7_b0" in
    let first = cleaned b10 3 result (lookup b10 result) in
    let found : lookup f result ≡ some (text v) =
      ap (λ (ws : List Text). lookup f (zip_fields qpigs_fields ws)) (split-join words h)
      ∙ zip_fields-lookup qpigs_fields words i f refl p
      ∙ rw q refl in
    elim (Bool-cases (b10 == f)) [
      | inl e ↦
          let other : b7 == f ≡ false =
            ap (λ (k : String). b7 == k) (sym ((string_eq.beq_iff b10 f).0 e)) in
          cleaned-other b7 f 8 first (lookup b7 first) other
          ∙ cleaned_self b10 f 3 result v e found
          ∙ rw e refl
      | inr e ↦
          let kept : lookup f first ≡ some (text v) =
            cleaned-other b10 f 3 result (lookup b10 result) e ∙ found in
          elim (Bool-cases (b7 == f)) [
            | inl g ↦ cleaned_self b7 f 8 first v g kept ∙ rw (e, g) refl
            | inr g ↦ cleaned-other b7 f 8 first (lookup b7 first) g ∙ kept ∙ rw (e, g) refl
          ]
    ]

-- A flag of a QPIWS answer is the binary digit at its place, of those that the answer holds, and is
-- clear where there are fewer.
pub qpiws-flag :
    (ascii : Text) (i : ℕ) (f : String)
    → get_elem? qpiws_fields i ≡ some f
    → lookup f (decode_qpiws ascii) ≡ some (flag (eqb (get_or (keep_if is_bit ascii) i b'0') b'1'))
unfolding decode_qpiws
qpiws-flag ascii i f p = flags-lookup qpiws_fields (keep_if is_bit ascii) i f refl p

-- A section that has neither of the two keys by which a NAK is known.
record IsSilent (s : Section) : Type 0 where
  no_status : lookup "status" s ≡ none
  no_error : lookup "error" s ≡ none

qpigs-IsSilent : (ascii : Text) → IsSilent (decode_qpigs ascii)
unfolding decode_qpigs
qpigs-IsSilent ascii =
    let result = zip_fields qpigs_fields (split ascii) in
    let b10 : String = "device_status_bits_b10_b8" in
    let b7 : String = "device_status_bits_b7_b0" in
    let first = cleaned b10 3 result (lookup b10 result) in
    record {
      no_status =
          cleaned-other b7 "status" 8 first (lookup b7 first) refl
          ∙ cleaned-other b10 "status" 3 result (lookup b10 result) refl
          ∙ zip_fields-absent qpigs_fields (split ascii) "status" refl;
      no_error =
          cleaned-other b7 "error" 8 first (lookup b7 first) refl
          ∙ cleaned-other b10 "error" 3 result (lookup b10 result) refl
          ∙ zip_fields-absent qpigs_fields (split ascii) "error" refl;
    }

zip-IsSilent :
    (fields : List String) (words : List Text)
    → is_named "status" fields ≡ false
    → is_named "error" fields ≡ false
    → IsSilent (zip_fields fields words)
zip-IsSilent fields words s e = record {
  no_status = zip_fields-absent fields words "status" s;
  no_error = zip_fields-absent fields words "error" e;
}

if-IsSilent : (b : Bool) (s t : Section) → IsSilent s → IsSilent t → IsSilent (if b then s else t)
if-IsSilent true s t p q = p
if-IsSilent false s t p q = q

flags-IsSilent :
    (fields : List String) (bits : Text)
    → is_named "status" fields ≡ false
    → is_named "error" fields ≡ false
    → IsSilent (flags fields bits)
flags-IsSilent fields bits s e = record {
  no_status = flags-absent fields bits "status" s;
  no_error = flags-absent fields bits "error" e;
}

decode_command-IsSilent : (command ascii : Text) → IsSilent (decode_command command ascii)
unfolding decode_command decode_qpigs2 decode_qpiri decode_qmod decode_qmn decode_qid decode_qflag
    decode_qvfw decode_qbeqi decode_qpiws
decode_command-IsSilent command ascii =
    if-IsSilent (command == codes "QPIGS") (decode_qpigs ascii) _ (qpigs-IsSilent ascii) (
      if-IsSilent (command == codes "QPIGS2") (decode_qpigs2 ascii) _
        (zip-IsSilent qpigs2_fields (split ascii) refl refl)
        (if-IsSilent (command == codes "QPIRI") (decode_qpiri ascii) _
          (zip-IsSilent qpiri_fields (transform_from 0 (split ascii)) refl refl)
          (if-IsSilent (command == codes "QMOD") (decode_qmod ascii) _
            (record { no_status = refl; no_error = refl })
            (if-IsSilent (command == codes "QMN") (decode_qmn ascii) _
              (record { no_status = refl; no_error = refl })
              (if-IsSilent (command == codes "QID" || command == codes "QSID") (decode_qid ascii) _
                (record { no_status = refl; no_error = refl })
                (if-IsSilent (command == codes "QFLAG") (decode_qflag ascii) _
                  (record { no_status = refl; no_error = refl })
                  (if-IsSilent (command == codes "QVFW") (decode_qvfw ascii) _
                    (record { no_status = refl; no_error = refl })
                    (if-IsSilent (command == codes "QBEQI") (decode_qbeqi ascii) _
                      (zip-IsSilent qbeqi_fields (split ascii) refl refl)
                      (if-IsSilent (command == codes "QPIWS") (decode_qpiws ascii) _
                        (flags-IsSilent qpiws_fields (keep_if is_bit ascii) refl refl)
                        (record { no_status = refl; no_error = refl }))))))))))

starts-contains : (needle s : Text) → starts_with s needle ≡ true → contains_text needle s ≡ true
starts-contains needle [] h = h
starts-contains needle (c ∷ s) h = ground arith

silent_lem : (s : Section) → IsSilent s → is_nak_result s ≡ false
unfolding is_nak_result
silent_lem s h = rw (h.no_status, h.no_error) refl

abbrev nak_section : Section
nak_section = ("error", text (codes "NAK response received. Command not accepted.")) ∷ []

nak_section_lem : (is_nak_result nak_section ≡ true) × (is_error_result nak_section ≡ true)
unfolding is_nak_result is_error_result
nak_section_lem = (refl, refl)

-- The coordinator takes a decoded answer for a NAK exactly where the text of the answer has the word,
-- whatever the command, and then for an error as well.
pub nak_iff :
    (command ascii : Text)
    → let section = decode_clean command ascii in
      (is_nak_result section ≡ contains_text (codes "NAK") ascii)
      × (is_nak_result section && not (is_error_result section) ≡ false)
unfolding decode_clean
nak_iff command ascii = elim (Bool-cases (contains_text (codes "NAK") ascii)) [
  | inl e ↦ ground (arith, nak_section_lem)
  | inr e ↦ ground (
    arith,
    starts-contains (codes "NAK") ascii,
    silent_lem (decode_command (upper command) ascii)
        (decode_command-IsSilent (upper command) ascii),
  )
]
