-- ===== src/Direct/Tests.antt =====
-- Runs of the collectors.
use home_assistant_dess_moni.Base.{◌≡◌, refl, true, [], ◌∷◌, some}
use home_assistant_dess_moni.Base.Text.{Text, codes}
use home_assistant_dess_moni.Crc.{
  crc16_voltronic, crc16_xmodem_bytes, crc16_xmodem, xmodem_from, xmodem_byte, xmodem_round,
  voltronic_from, voltronic_byte, bump, is_control,
}
use home_assistant_dess_moni.Crc.Frame.{
  build_pi30_frame, validate_voltronic_response, frame_body, any_scope, scope_matches, after_paren,
  is_junk, lstrip_junk,
}
use home_assistant_dess_moni.Pi18.Frame.{before_cr}
use home_assistant_dess_moni.Pi18.Transport.{has_cr}
use home_assistant_dess_moni.Direct.Collector.{
  new_line, receive_line, line_received, line_answer, strip_bytes, lstrip_blank, serial,
}

abbrev decode : Text → Text
decode bytes = bytes

-- The two bytes of the checksum, here "be", stay in the text that goes to the decoder.
checksum_in_text :
    (receive_line decode serial true new_line (build_pi30_frame (codes "(92931701100512") ∷ [])).fut
    ≡ some (some (codes "(92931701100512be"))
unfolding crc16_voltronic crc16_xmodem_bytes crc16_xmodem xmodem_from xmodem_byte xmodem_round
    voltronic_from voltronic_byte bump is_control build_pi30_frame validate_voltronic_response
    frame_body any_scope scope_matches after_paren is_junk lstrip_junk before_cr has_cr receive_line
    line_received line_answer strip_bytes lstrip_blank
checksum_in_text = refl
