-- ===== src/Direct/Collector.antt =====
-- The collectors of one answer, and `VoltronicAdapter` on what a connection delivers. The connection,
-- its opening and the timeout are I/O: the chunks are those that arrive before the timeout. `decode` is
-- `bytes.decode(errors="ignore")`.
use home_assistant_dess_moni.Base.{
  ℕ, Bool, true, false, not, ◌&&◌, ◌||◌, List, [], ◌∷◌, ◌++◌, Option, none, some, eqb, leb,
  if◌then◌else◌, ◌==◌, list_eq, nat_eq,
}
use mathlib.Core.List.{reverse}
use home_assistant_dess_moni.Base.Text.{Text, codes, contains_text, strip}
use home_assistant_dess_moni.Base.Int.{ℤ}
use home_assistant_dess_moni.Base.Text.{split_at}
use home_assistant_dess_moni.Values.{text, Section}
use home_assistant_dess_moni.Crc.Frame.{build_pi30_frame, validate_voltronic_response}
use home_assistant_dess_moni.Decode.Voltronic.{decode_direct_response}
use home_assistant_dess_moni.Pi18.Frame.{before_cr}
use home_assistant_dess_moni.Pi18.Transport.{has_cr, after_sep, host_and_port}

-- The two transports, of which the first takes a line feed for an end as well.
pub data Line : Type 0 where
  tcp serial : Line

unfoldable pub has_lf : List ℕ → Bool
has_lf [] = false
has_lf (c ∷ rest) = if eqb c 0x0a then true else has_lf rest

abbrev pub is_complete : Line → List ℕ → Bool
is_complete tcp buffer = has_cr buffer || has_lf buffer
is_complete serial buffer = has_cr buffer

-- ASCII white space, as `bytes.strip` sees it.
abbrev pub is_blank : ℕ → Bool
is_blank c = leb 9 c && leb c 13 || eqb c 32

unfoldable pub lstrip_blank : List ℕ → List ℕ
lstrip_blank [] = []
lstrip_blank (c ∷ s) = if is_blank c then lstrip_blank s else c ∷ s

unfoldable pub strip_bytes : List ℕ → List ℕ
unfolding lstrip_blank
strip_bytes s = reverse (lstrip_blank (reverse (lstrip_blank s)))

-- `some none` is the result `None` of the future.
abbrev pub LineAnswer : Type 0
LineAnswer = Option (Option Text)

pub record LineProtocol : Type 0 where
  pub buffer : List ℕ
  pub fut : LineAnswer

abbrev pub new_line : LineProtocol
new_line = record { buffer = []; fut = none }

abbrev pub put_once : Option Text → LineAnswer → LineAnswer
put_once result none = some result
put_once result (some earlier) = some earlier

module _ (decode : List ℕ → Text) where
  unfoldable pub line_answer : Bool → List ℕ → Option Text
  line_answer strict_crc buffer =
      let raw_bytes = before_cr buffer in
      let (ok, _) = validate_voltronic_response raw_bytes in
      if not ok && strict_crc then none else some (decode (strip_bytes raw_bytes))

  unfoldable pub line_received : Line → Bool → LineProtocol → List ℕ → LineProtocol
  unfolding line_answer
  line_received line strict_crc p bytes =
      let buffer = p.buffer ++ bytes in
      if is_complete line buffer
      then record p { buffer = buffer; fut = put_once (line_answer strict_crc buffer) p.fut }
      else record p { buffer = buffer }

  unfoldable pub receive_line : Line → Bool → LineProtocol → List (List ℕ) → LineProtocol
  unfolding line_received
  receive_line line strict_crc p [] = p
  receive_line line strict_crc p (bytes ∷ chunks) =
      receive_line line strict_crc (line_received line strict_crc p bytes) chunks

  abbrev pub section_or_empty : Option Section → Section
  section_or_empty none = []
  section_or_empty (some section) = section

  -- The end of `get_data`; what the decoder raises gives no data.
  abbrev pub section_of : Text → LineAnswer → Section
  section_of command (some (some (c ∷ result))) =
      section_or_empty (decode_direct_response command (c ∷ result))
  section_of command _ = []

  unfoldable pub voltronic_data : Line → Bool → Text → List (List ℕ) → Section
  unfolding receive_line
  voltronic_data line strict_crc command chunks =
      section_of command (receive_line line strict_crc new_line chunks).fut

  -- `send_voltronic_set_command` on the bytes that come back, `none` for the timeout.
  unfoldable pub set_answer : Option (List ℕ) → Section
  set_answer none = ("error", text (codes "timeout waiting for ACK/NAK")) ∷ []
  set_answer (some bytes) =
      let resp = strip (decode bytes) in
      if contains_text (codes "ACK") resp
      then ("status", text (codes "ACK")) ∷ []
      else if contains_text (codes "NAK") resp
      then ("status", text (codes "NAK")) ∷ []
      else if resp == []
      then ("error", text (codes "empty response")) ∷ []
      else ("raw", text resp) ∷ []

-- What `send_voltronic_set_command` writes; `connection_made` writes `build_pi30_frame command`.
unfoldable pub set_packet : Text → List ℕ
set_packet command = build_pi30_frame (strip command)

-- `none` is the ValueError of an unpacking or of `int`.
unfoldable pub parse_tcp_uri : Text → Option (Text × ℤ)
parse_tcp_uri device = elim (after_sep (codes "tcp://") device) [
  | none ↦ none
  | some addr ↦ host_and_port (split_at b':' addr)
]
