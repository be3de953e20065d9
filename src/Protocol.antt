-- ===== src/Protocol.antt =====
-- src/protocol.rs: message types, the parser's state and `parse_message`. The crate
-- `percent_encoding` is the parameter `percent_decode`. The children have the parsing of events,
-- and prove what the parser does.
pub mod Framer
pub mod Refinement
pub mod Validity
pub mod Resume
pub mod Stream
pub mod Progress
pub mod Segmentation
pub mod Message
pub mod Events
pub mod Plain
pub mod Written
pub mod Restored
pub mod RoundTrip
pub mod Mapped
pub mod Formats
use freeswitch_esl_rs.Prelude.{
  ltb, if◌then◌else◌, length, take, drop, ok, err, ◌>>=◌, ◌>>◌, reject_if, ok_or, ℕ, zero, suc, ◌+◌,
  true, false, ◌||◌, Option, none, some, List, [], ◌∷◌, ◌++◌, Bytes, codes, unwrap_or,
}
use freeswitch_esl_rs.Constants.{
  max_message_size, header_terminator, content_type_auth_request, content_type_command_reply,
  content_type_api_response, content_type_text_event_plain, content_type_text_event_json,
  content_type_text_event_xml, header_content_type, header_content_length,
}
use freeswitch_esl_rs.Text.{bytes_eq, is_empty, find}
use freeswitch_esl_rs.Text.Trim.{trim, lines}
use freeswitch_esl_rs.Text.Utf8.{from_utf8}
use freeswitch_esl_rs.Text.Decimal.{max_usize, decimal, parse_unsigned}
use freeswitch_esl_rs.Error.{EslError, protocol_error, invalid_header, EslResult}
use freeswitch_esl_rs.Buffer.{
  EslBuffer, extend_from_slice, extract_until_pattern, extract_bytes, compact, check_size_limits,
}
use freeswitch_esl_rs.Headers.{Headers, get, insert}
use freeswitch_esl_rs.Buffer

pub data MessageType : Type 0 where
  auth_request command_reply api_response event disconnect : MessageType
  unknown : Bytes → MessageType

unfoldable pub from_content_type : Bytes → MessageType
from_content_type content_type =
    if bytes_eq content_type content_type_auth_request
    then auth_request
    else if bytes_eq content_type content_type_command_reply
    then command_reply
    else if bytes_eq content_type content_type_api_response
    then api_response
    else if bytes_eq content_type content_type_text_event_plain
        || (bytes_eq content_type content_type_text_event_json
            || (bytes_eq content_type content_type_text_event_xml
                || bytes_eq content_type (codes "log/data")))
    then event
    else if bytes_eq content_type (codes "text/disconnect-notice")
    then disconnect
    else unknown content_type

pub record EslMessage : Type 0 where
  pub message_type : MessageType
  pub headers : Headers
  pub body : Option Bytes

pub data ParseState : Type 0 where
  waiting_for_headers : ParseState
  waiting_for_body : (message_type : MessageType) (headers : Headers) (body_length : ℕ) → ParseState

pub record EslParser : Type 0 where
  pub buffer : EslBuffer
  pub state : ParseState

unfoldable pub new : EslParser
unfolding Buffer.new
new = record { buffer = Buffer.new; state = waiting_for_headers }

unfoldable pub add_data : EslParser → Bytes → EslParser × EslResult (Unit {0})
unfolding Buffer.extend_from_slice Buffer.check_size_limits
add_data p s =
    let buffer = Buffer.extend_from_slice p.buffer s in
    (record p { buffer = buffer }, Buffer.check_size_limits buffer)

-- The value of `Content-Length`, or the error that it causes.
unfoldable pub content_length : Bytes → EslResult ℕ
unfolding parse_unsigned trim
content_length length_str = do
  length ←
      ok_or (parse_unsigned max_usize (trim length_str))
        (invalid_header (codes "Content-Length: " ++ length_str))
  reject_if (ltb max_message_size length) (
      protocol_error (
        codes "Message too large: Content-Length "
        ++ decimal length
        ++ codes " exceeds limit "
        ++ decimal max_message_size
        ++ codes ". Protocol error or corrupted data."))
  ok length

-- The bytes of the body are read: they are a text or an error.
unfoldable pub after_body :
    EslParser → MessageType → Headers → Bytes → EslParser × EslResult (Option EslMessage)
unfolding from_utf8
after_body p message_type headers body_data = elim (from_utf8 body_data) [
  | none ↦ (p, err (protocol_error (codes "Invalid UTF-8 in body")))
  | some body_str ↦ (
    record p { state = waiting_for_headers },
    ok (some (record { message_type = message_type; headers = headers; body = some body_str })),
  )
]

-- The branch `WaitingForBody` of `parse_message`, once `extract_bytes` has returned.
unfoldable pub body_read :
    EslParser
    → MessageType
    → Headers
    → EslBuffer × Option Bytes
    → EslParser × EslResult (Option EslMessage)
unfolding Buffer.compact after_body
body_read p message_type headers (buffer, none) = (record p { buffer = buffer }, ok none)
body_read p message_type headers (buffer, some body_data) =
    after_body (record p { buffer = Buffer.compact buffer }) message_type headers body_data

unfoldable pub parse_body :
    EslParser → MessageType → Headers → ℕ → EslParser × EslResult (Option EslMessage)
unfolding Buffer.extract_bytes body_read
parse_body p message_type headers body_length =
    body_read p message_type headers (Buffer.extract_bytes p.buffer body_length)

-- What follows the header section, in the branch `WaitingForHeaders`. The recursive call of
-- `parse_message` is made in the state `WaitingForBody`, so it is one of `parse_body`.
unfoldable pub after_envelope :
    EslParser
    → EslResult (MessageType × Headers × Option ℕ)
    → EslParser × EslResult (Option EslMessage)
unfolding parse_body
after_envelope p (err e) = (p, err e)
after_envelope p (ok (message_type, headers, none)) = (
  record p { state = waiting_for_headers },
  ok (some (record { message_type = message_type; headers = headers; body = none })),
)
after_envelope p (ok (message_type, headers, some zero)) = (
  record p { state = waiting_for_headers },
  ok (some (record { message_type = message_type; headers = headers; body = none })),
)
after_envelope p (ok (message_type, headers, some (suc n))) =
    parse_body (record p { state = waiting_for_body message_type headers (suc n) }) message_type
      headers (suc n)

-- The text has a dash, U+2014, between its halves.
abbrev missing_content_type : EslError
missing_content_type = protocol_error (
    codes "Missing Content-Type header "
    ++ (0xe2 ∷ 0x80 ∷ 0x94 ∷ [])
    ++ codes " likely protocol desync")

module _ (percent_decode : Bytes → Bytes) where
  -- `percent_decode_str(raw).decode_utf8()`, and `raw` where that is no UTF-8.
  unfoldable pub decode_value : Bytes → Bytes
  unfolding from_utf8
  decode_value raw_value = unwrap_or (from_utf8 (percent_decode raw_value)) raw_value

  unfoldable pub parse_header_lines : List Bytes → Headers → EslResult Headers
  unfolding decode_value trim find
  parse_header_lines [] headers = ok headers
  parse_header_lines (raw_line ∷ rest) headers =
      let line = trim raw_line in
      elim (is_empty line) [
        | true ↦ parse_header_lines rest headers
        | false ↦ elim (find line b':') [
          | none ↦ err (invalid_header line)
          | some colon_pos ↦ parse_header_lines rest (
              insert headers (trim (take colon_pos line))
                (decode_value (trim (drop (colon_pos + 1) line))))
        ]
      ]

  unfoldable pub parse_headers : Bytes → EslResult Headers
  unfolding parse_header_lines lines
  parse_headers headers_str = parse_header_lines (lines headers_str) []

  -- What the header section says: the message's type and headers, and the length of its body.
  unfoldable pub parse_envelope : Bytes → EslResult (MessageType × Headers × Option ℕ)
  unfolding parse_headers content_length from_content_type from_utf8
  parse_envelope headers_data = do
    headers_str ← ok_or (from_utf8 headers_data) (protocol_error (codes "Invalid UTF-8 in headers"))
    headers ← parse_headers headers_str
    content_type ← ok_or (get headers header_content_type) missing_content_type
    let message_type = from_content_type content_type
    elim (get headers header_content_length) [
      | none ↦ ok (message_type, headers, none)
      | some length_str ↦ do
        length ← content_length length_str
        ok (message_type, headers, some length)
    ]

  -- The branch `WaitingForHeaders`, once `extract_until_pattern` has returned.
  unfoldable pub headers_read :
      EslParser → EslBuffer × Option Bytes → EslParser × EslResult (Option EslMessage)
  unfolding Buffer.compact parse_envelope after_envelope
  headers_read p (buffer, none) = (record p { buffer = buffer }, ok none)
  headers_read p (buffer, some headers_data) =
      after_envelope (record p { buffer = Buffer.compact buffer }) (parse_envelope headers_data)

  unfoldable pub parse_in : ParseState → EslParser → EslParser × EslResult (Option EslMessage)
  unfolding Buffer.extract_until_pattern headers_read parse_body
  parse_in waiting_for_headers p =
      headers_read p (Buffer.extract_until_pattern p.buffer header_terminator)
  parse_in (waiting_for_body message_type headers body_length) p =
      parse_body p message_type headers body_length

  unfoldable pub parse_message : EslParser → EslParser × EslResult (Option EslMessage)
  unfolding parse_in
  parse_message p = parse_in p.state p
