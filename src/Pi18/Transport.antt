-- ===== src/Pi18/Transport.antt =====
-- api/protocols/pi18_tcp.py: the collector of one answer, and `query_pi18` on what a connection
-- delivers. The connection itself, its opening and the timeout are I/O: the chunks are those that
-- arrive before the timeout.
use home_assistant_dess_moni.Base.{
  ℕ, Bool, true, false, not, ◌&&◌, List, [], ◌∷◌, ◌++◌, Option, none, some, eqb, drop, length,
  if◌then◌else◌,
}
use home_assistant_dess_moni.Base.Text.{Text, codes, starts_with, split_at}
use home_assistant_dess_moni.Base.Int.{ℤ}
use home_assistant_dess_moni.Values.{Section}
use home_assistant_dess_moni.Crc.Frame.{validate_pi18_response}
use home_assistant_dess_moni.Pi18.Numbers.{parse_int}
use home_assistant_dess_moni.Pi18.Frame.{before_cr}
use home_assistant_dess_moni.Pi18.Respond.{decode_pi18_response}

-- `s.split(sep, 1)` where it has two parts: what stands behind the first `sep`.
unfoldable pub after_sep : Text → Text → Option Text
after_sep sep [] = if starts_with [] sep then some [] else none
after_sep sep (c ∷ s) =
    let rest = after_sep sep s in
    if starts_with (c ∷ s) sep then some (drop (length sep) (c ∷ s)) else rest

abbrev pub host_and_port : List Text → Option (Text × ℤ)
host_and_port (host ∷ port_str ∷ []) = elim (parse_int port_str) [
  | none ↦ none
  | some port ↦ some (host, port)
]
host_and_port _ = none

-- `none` is the ValueError of an unpacking or of `int`.
unfoldable pub parse_pi18_tcp_uri : Text → Option (Text × ℤ)
unfolding after_sep
parse_pi18_tcp_uri device = elim (after_sep (codes "pi18://") device) [
  | none ↦ none
  | some addr ↦ host_and_port (split_at b':' addr)
]

unfoldable pub parse_pi18_serial_uri : Text → Option Text
unfolding after_sep
parse_pi18_serial_uri device = after_sep (codes "pi18-serial://") device

-- `b"\r" in buffer`
unfoldable pub has_cr : List ℕ → Bool
has_cr [] = false
has_cr (c ∷ rest) = if eqb c 0x0d then true else has_cr rest

-- The future of `query_pi18`: `some none` is the result `None`.
abbrev pub Answer : Type 0
Answer = Option (Option (List ℕ))

pub record Pi18FrameCollector : Type 0 where
  pub buffer : List ℕ
  pub fut : Answer

abbrev pub new_collector : Pi18FrameCollector
new_collector = record { buffer = []; fut = none }

-- `on_response`, which leaves a future that is done as it is.
abbrev pub set_once : Option (List ℕ) → Answer → Answer
set_once result none = some result
set_once result (some earlier) = some earlier

-- What `data_received` answers with once the buffer has a CR.
unfoldable pub answer_of : Bool → List ℕ → Option (List ℕ)
answer_of strict_crc buffer =
    let body = before_cr buffer in
    let (ok, _) = validate_pi18_response body in
    if not ok && strict_crc then none else some (body ++ 0x0d ∷ [])

unfoldable pub data_received : Bool → Pi18FrameCollector → List ℕ → Pi18FrameCollector
data_received strict_crc c bytes =
    let buffer = c.buffer ++ bytes in
    if has_cr buffer
    then record c { buffer = buffer; fut = set_once (answer_of strict_crc buffer) c.fut }
    else record c { buffer = buffer }

unfoldable pub connection_lost : Bool → Pi18FrameCollector → Pi18FrameCollector
connection_lost exc c = if exc then record c { fut = set_once none c.fut } else c

unfoldable pub receive_all : Bool → Pi18FrameCollector → List (List ℕ) → Pi18FrameCollector
receive_all strict_crc c [] = c
receive_all strict_crc c (bytes ∷ chunks) =
    receive_all strict_crc (data_received strict_crc c bytes) chunks

module _ (ratio_text : ℤ → ℤ → Text) where
  -- The end of `query_pi18`: a future that is not done by the timeout counts as `None`.
  unfoldable pub result_of : Text → Answer → Section
  result_of command (some (some (c ∷ raw))) = decode_pi18_response ratio_text command (c ∷ raw)
  result_of command _ = []

  unfoldable pub query_pi18 : Bool → Text → List (List ℕ) → Section
  query_pi18 strict_crc command chunks =
      result_of command (receive_all strict_crc new_collector chunks).fut
