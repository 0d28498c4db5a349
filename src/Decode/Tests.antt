-- ===== src/Decode/Tests.antt =====
-- Runs of the decoders.
use home_assistant_dess_moni.Base.{
  ◌≡◌, refl, false, not, ◌&&◌, List, [], ◌∷◌, some, string_eq, nat_eq, list_eq,
}
use home_assistant_dess_moni.Base.Text.{
  Text, codes, contains_text, is_space, strip, lstrip, without, upper,
}
use home_assistant_dess_moni.Base.Dict.{lookup}
use home_assistant_dess_moni.Values.{text, line, mode}
use home_assistant_dess_moni.Coordinator.Fetch.{is_nak_result, is_error_result}
use home_assistant_dess_moni.Decode.Voltronic.{
  decode_qpigs, decode_clean, decode_command, decode_qmod, decode_direct_response, is_hex_string,
  hex_digit, clean_answer,
}
use home_assistant_dess_moni.Decode.Tokens.{join}
use home_assistant_dess_moni.Decode.Answers.{shown, qpigs-field, nak_iff}

-- `(L` and a line end, as an answer to QMOD.
mode_run :
    decode_direct_response (codes "qmod") (b'(' ∷ b'L' ∷ 0x0d ∷ [])
    ≡ some (("operating_mode", mode line) ∷ [])
unfolding decode_direct_response is_hex_string hex_digit clean_answer decode_clean decode_command
    decode_qmod strip lstrip is_space without upper
mode_run = refl

abbrev two_words : List Text
two_words = codes "230.1" ∷ codes "50.0" ∷ []

qpigs-field_example :
    lookup "grid_frequency" (decode_qpigs (join two_words))
    ≡ some (text (shown "grid_frequency" (codes "50.0")))
unfolding is_space
qpigs-field_example =
    qpigs-field two_words 1 "grid_frequency" (codes "50.0")
      ((refl, (refl, (refl, (refl, (refl, tt))))), ((refl, (refl, (refl, (refl, tt)))), tt)) refl
      refl

nak_iff_example :
    (is_nak_result (decode_clean (codes "QPIGS") (codes "NAKss"))
      ≡ contains_text (codes "NAK") (codes "NAKss"))
    × (is_nak_result (decode_clean (codes "QPIGS") (codes "NAKss"))
          && not (is_error_result (decode_clean (codes "QPIGS") (codes "NAKss")))
        ≡ false)
nak_iff_example = nak_iff (codes "QPIGS") (codes "NAKss")
