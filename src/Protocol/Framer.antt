-- ===== src/Protocol/Framer.antt =====
-- The abstract parser: its state and the bytes not yet consumed, with no buffer and no position.
-- The parser of src/protocol.rs does what it says.
use freeswitch_esl_rs.Prelude.{
  leb, if◌then◌else◌, length, take, drop, ok, err, ℕ, zero, suc, ◌+◌, Option, none, some, Bytes,
  codes,
}
use freeswitch_esl_rs.Constants.{header_terminator}
use freeswitch_esl_rs.Text.Utf8.{from_utf8}
use freeswitch_esl_rs.Error.{protocol_error, EslResult}
use freeswitch_esl_rs.Buffer.{unread}
use freeswitch_esl_rs.Buffer.Pattern.{index_of}
use freeswitch_esl_rs.Headers.{Headers}
use freeswitch_esl_rs.Protocol.{
  MessageType, EslMessage, ParseState, waiting_for_headers, waiting_for_body, EslParser,
  parse_envelope,
}
use freeswitch_esl_rs.Buffer

pub record Framer : Type 0 where
  pub state : ParseState
  pub pending : Bytes

abbrev pub Outcome : Type 0
Outcome = Framer × EslResult (Option EslMessage)

-- The bytes of a body are cut off; `rest` follows them.
unfoldable pub body_framed : MessageType → Headers → ℕ → Bytes → Option Bytes → Outcome
body_framed message_type headers n rest none = (
  record { state = waiting_for_body message_type headers n; pending = rest },
  err (protocol_error (codes "Invalid UTF-8 in body")),
)
body_framed message_type headers n rest (some body) = (
  record { state = waiting_for_headers; pending = rest },
  ok (some (record { message_type = message_type; headers = headers; body = some body })),
)

-- A body of `n` bytes is cut off the front once it is there.
unfoldable pub frame_body : Bytes → MessageType → Headers → ℕ → Outcome
unfolding body_framed
frame_body s message_type headers n =
    if leb n (length s)
    then body_framed message_type headers n (drop n s) (from_utf8 (take n s))
    else (record { state = waiting_for_body message_type headers n; pending = s }, ok none)

-- The header section is cut off at the first blank line.
unfoldable pub frame_after : Bytes → EslResult (MessageType × Headers × Option ℕ) → Outcome
unfolding frame_body
frame_after s (err e) = (record { state = waiting_for_headers; pending = s }, err e)
frame_after s (ok (message_type, headers, none)) = (
  record { state = waiting_for_headers; pending = s },
  ok (some (record { message_type = message_type; headers = headers; body = none })),
)
frame_after s (ok (message_type, headers, some zero)) = (
  record { state = waiting_for_headers; pending = s },
  ok (some (record { message_type = message_type; headers = headers; body = none })),
)
frame_after s (ok (message_type, headers, some (suc n))) = frame_body s message_type headers (suc n)

module _ (percent_decode : Bytes → Bytes) where
  -- The blank line was found, or was not.
  unfoldable pub headers_framed : Bytes → Option ℕ → Outcome
  unfolding frame_after
  headers_framed s none = (record { state = waiting_for_headers; pending = s }, ok none)
  headers_framed s (some i) =
      frame_after (drop (i + 2) s) (parse_envelope percent_decode (take i s))

  unfoldable pub frame_headers : Bytes → Outcome
  unfolding headers_framed
  frame_headers s = headers_framed s (index_of s header_terminator)

  unfoldable pub frame_in : ParseState → Bytes → Outcome
  unfolding frame_headers frame_body
  frame_in waiting_for_headers s = frame_headers s
  frame_in (waiting_for_body message_type headers n) s = frame_body s message_type headers n

  unfoldable pub frame : Framer → Outcome
  unfolding frame_in
  frame f = frame_in f.state f.pending

-- What a parser is, seen as a framer.
abbrev pub view : EslParser → Framer
view p = record { state = p.state; pending = Buffer.unread p.buffer }

abbrev pub view_outcome : EslParser × EslResult (Option EslMessage) → Outcome
view_outcome (p, r) = (view p, r)
